-- ===== src/Uboot/Env/Setenv.antt =====
-- `uboot_setenv_cb` on a loaded environment, and what `uboot_env_get_param` reads afterwards.
use ipctool.Base.{
  ℕ, zero, suc, ◌+◌, ◌-◌, ◌≤◌, ◌<◌, Bool, false, List, [], ◌∷◌, ◌++◌, Option, none, some, ◌≡◌, ◌≢◌,
  ◌∙◌, sym, refl, ap, arith, length, length-append, drop, replicate, drop-append_left, take,
  take-append_left, inl, inr,
}
use ipctool.Base.Bytes.{Bytes}
use ipctool.Uboot.Env.{
  assign, FlashOp, fop_ram, value, missing, Uboot, uboot_env_get_param, param_of, done, copied,
  finish, uboot_setenv_cb, set_env_param_ram, set_walk, uboot_copyenv_int,
}
use ipctool.Uboot.Env.Get.{lookup, get_walk-encode}
use ipctool.Uboot.Env.Text.{IsText, IsEntry, AreEntries, encode, lines, length-encode, encode-lines}
use ipctool.Uboot.Env.Spec.{Update, unchanged, edited, rebuilt, becomes, change, update}
use ipctool.Uboot.Env.Set.{buffer, result, need, change-new, change-size, grown-length, take-all}
use ipctool.Uboot.Env.Walk.{set_walk-update}
use ipctool.Uboot.Env.Induct.{update-induct}
use ipctool.Uboot.Env.Size.{
  length-edited, rebuilt-size, length-buffer, copied-whole, rewrite-settled, stored,
}
use ipctool.Uboot.Env.RoundTrip.{name_eq, update-lookup, update-loses}

IsText-assign : (k v : Bytes) → IsText k → IsText v → IsText (assign k v)
unfolding assign
IsText-assign [] v h hv = hv
IsText-assign (zero ∷ k) v h hv = absurd h
IsText-assign (suc c ∷ k) v h hv = IsText-assign k v h hv

assign-ne-nil : (k v : Bytes) → assign k v ≢ []
unfolding assign
assign-ne-nil [] v = λ e. cc
assign-ne-nil (c ∷ k) v = λ e. cc

AreEntries-append : (xs ys : List Bytes) → AreEntries xs → AreEntries ys → AreEntries (xs ++ ys)
AreEntries-append [] ys h k = k
AreEntries-append (e ∷ xs) ys h k = (h.0, AreEntries-append xs ys h.1 k)

-- A loaded environment: a checksum, the entries and the buffer's rest, of `total` bytes, which with
-- the checksum are the `env_len` bytes of `uenv`.
pub record Loaded (u : Uboot) (sum : Bytes) (es : List Bytes) (pad : Bytes) (total : ℕ)
    : Type 0 where
  pub uenv_is : u.uenv ≡ some (sum ++ encode es pad)
  pub sum_is : length sum ≡ 4
  pub text_is : length (encode es pad) ≡ total
  pub len_is : u.env_len ≡ total + 4
  pub entries : AreEntries es

module _ (word : ℕ) (u : Uboot) (sum : Bytes) (es : List Bytes) (pad : Bytes) (total : ℕ)
    (loaded : Loaded u sum es pad total) (key newvalue : Bytes) (fop : FlashOp)
    (room : need key newvalue fop pad total es ≤ total) where
  copy-loaded : (env : Option Bytes) → uboot_copyenv_int u env ≡ some (sum ++ encode es pad)
  unfolding uboot_copyenv_int
  copy-loaded env = rw loaded.uenv_is

  skip_sum : drop 4 (sum ++ encode es pad) ≡ encode es pad
  skip_sum =
      ap (λ n. drop n (sum ++ encode es pad)) (sym loaded.sum_is)
      ∙ drop-append_left sum (encode es pad)

  fresh : replicate (u.env_len - 4) 0 ≡ buffer total []
  fresh =
      let e : u.env_len - 4 ≡ total - 0 = omega (arith, loaded.len_is) in ap (λ n. replicate n 0) e

  walks :
      set_walk
        (length (sum ++ encode es pad))
        key
        newvalue
        fop
        []
        (encode es pad)
        false
        (buffer total [])
        0
      ≡ result pad total (update key newvalue fop [] es false [])
  walks =
      set_walk-update key newvalue fop pad total (length (sum ++ encode es pad)) [] es [] false
        loaded.entries (omega (arith, length-append {0} sum (encode es pad), length-encode es pad))
        (omega arith)

  uenv-size : length (sum ++ encode es pad) ≡ u.env_len
  uenv-size =
      omega
        (arith, loaded.sum_is, loaded.text_is, loaded.len_is, length-append {0} sum (encode es pad))

  take-sum : take 4 (sum ++ encode es pad) ≡ sum
  take-sum =
      ap (λ n. take n (sum ++ encode es pad)) (sym loaded.sum_is)
      ∙ take-append_left sum (encode es pad)

  -- What follows the walk copies `env_len` bytes between buffers of that size.
  finish-stored :
      (w : Update)
      → update key newvalue fop [] es false [] ≡ w
      → finish word u fop (sum ++ encode es pad) (result pad total w)
        ≡ stored word u fop sum es pad total w
  unfolding finish
  finish-stored unchanged h = refl
  finish-stored (edited es') h =
      let size = length-edited key newvalue fop pad [] es [] es' false h ∙ loaded.text_is in
      rw take-sum (
        rewrite-settled word u total loaded.len_is some (λ t _. refl) sum (encode es' pad)
          loaded.sum_is size fop)
  finish-stored (rebuilt es') h =
      let size = length-buffer total es' (rebuilt-size key newvalue fop pad total es es' room h) in
      rewrite-settled word u total loaded.len_is (copied u.env_len (sum ++ encode es pad))
        (λ t k. copied-whole u.env_len (sum ++ encode es pad) t uenv-size (k ∙ sym loaded.len_is))
        (0 ∷ 0 ∷ 0 ∷ 0 ∷ []) (buffer total es') refl size fop

  -- On a loaded environment where the new assignments fit, `uboot_setenv_cb` leaves neither
  -- `uenv` nor `newenv`, and `uenv` and the flash hold afterwards what the specification's walk over
  -- the entries says: the environment as it was, an environment edited in place, or one written
  -- anew.
  pub uboot_setenv_cb-update :
      (env : Option Bytes)
      → uboot_setenv_cb word u env key newvalue fop
        ≡ stored word u fop sum es pad total (update key newvalue fop [] es false [])
  unfolding uboot_setenv_cb
  uboot_setenv_cb-update env =
      rw (copy-loaded env, uboot_setenv_cb, skip_sum, fresh, walks)
        (finish-stored (update key newvalue fop [] es false []) refl)

  module _ (tk : IsText key) (tv : IsText newvalue) where
    abbrev Fits : List Bytes → Bool → List Bytes → Type 0
    Fits es found out =
        AreEntries es
        × AreEntries out
        × (length (lines out) + need key newvalue fop pad total es ≤ total)

    one_entry : AreEntries (assign key newvalue ∷ [])
    one_entry = ((IsText-assign key newvalue tk tv, assign-ne-nil key newvalue), tt)

    change-entries :
        (before es : List Bytes) (e : Bytes) (found found' : Bool) (new : List Bytes)
        → IsEntry e
        → change key newvalue fop before e es found ≡ becomes found' new
        → AreEntries new
    change-entries before es e found found' new entry h =
        elim (change-new key newvalue fop pad total before es e found found' new h) [
          | inl nothing ↦ rw nothing tt
          | inr (inl kept) ↦ rw kept (entry, tt)
          | inr (inr set') ↦ rw set' one_entry
        ]

    keep-Fits :
        (before es out : List Bytes) (e : Bytes) (found found' : Bool) (new : List Bytes)
        → Fits (e ∷ es) found out
        → change key newvalue fop before e es found ≡ becomes found' new
        → Fits es found' (out ++ new)
    keep-Fits before es out e found found' new h k = (
      h.0.1,
      AreEntries-append out new h.1 (change-entries before es e found found' new h.0.0 k),
      omega (arith, h.2, change-size key newvalue fop pad total before es out e found found' new k),
    )

    -- What is written anew is entries that fit the buffer with the NUL that ends them.
    rebuilt-fits :
        (es' : List Bytes)
        → update key newvalue fop [] es false [] ≡ rebuilt es'
        → AreEntries es' × (length (lines es') < total)
    rebuilt-fits es' h =
        elim (update-induct key newvalue fop Fits keep-Fits [] es [] false es'
          (loaded.entries, tt, omega arith) h) [
            | inl f ↦ (f.1, omega (arith, f.2))
            | inr (out, f, e) ↦ (
              rw e (AreEntries-append out (assign key newvalue ∷ []) f.1 one_entry),
              rw e (omega (arith, f.2, grown-length out (assign key newvalue))),
            )
          ]

IsText-name_eq : (key : Bytes) → IsText key → IsText (name_eq key)
IsText-name_eq [] h = tt
IsText-name_eq (zero ∷ key) h = absurd h
IsText-name_eq (suc c ∷ key) h = IsText-name_eq key h

param_of-name_eq : (key : Bytes) → length key < 1023 → param_of key ≡ name_eq key
unfolding param_of
param_of-name_eq key h =
    take-all 1023 (name_eq key) (omega (arith, length-append {0} key (b'=' ∷ [])))

-- A buffer with entries and room behind them is read as an encoding.
buffer-encode :
    (total : ℕ) (es : List Bytes)
    → length (lines es) < total
    → buffer total es ≡ encode es (replicate (total - length (lines es) - 1) 0)
buffer-encode total es h =
    let e : total - length (lines es) ≡ suc (total - length (lines es) - 1) = omega arith in
    ap (λ n. lines es ++ replicate n 0) e
    ∙ sym (encode-lines es (replicate (total - length (lines es) - 1) 0))

get-buffer :
    (u : Uboot) (sum : Bytes) (total : ℕ) (es : List Bytes) (key : Bytes)
    → length sum ≡ 4
    → u.uenv ≡ some (sum ++ buffer total es)
    → AreEntries es
    → length (lines es) < total
    → IsText key
    → length key < 1023
    → uboot_env_get_param u key ≡ lookup (name_eq key) es
unfolding uboot_env_get_param
get-buffer u sum total es key four env_is are fits text' short =
    let pad = replicate (total - length (lines es) - 1) 0 in
    let skip : drop 4 (sum ++ encode es pad) ≡ encode es pad =
      ap (λ n. drop n (sum ++ encode es pad)) (sym four) ∙ drop-append_left sum (encode es pad) in
    rw (env_is, uboot_env_get_param, param_of-name_eq key short, buffer-encode total es fits, skip)
      (get_walk-encode (length (sum ++ encode es pad)) (name_eq key) es pad
        (IsText-name_eq key text') are
        (omega (arith, length-append {0} sum (encode es pad), length-encode es pad)))

module _ (word : ℕ) (u : Uboot) (sum : Bytes) (es : List Bytes) (pad : Bytes) (total : ℕ)
    (loaded : Loaded u sum es pad total) (key newvalue : Bytes)
    (room : need key newvalue fop_ram pad total es ≤ total) where
  -- On a loaded environment where the new assignments fit, and where the walk does not end at an
  -- entry whose value has the size of the new one or that has no `=`, `set_env_param_ram`
  -- succeeds without a write to flash, and `uboot_env_get_param` then returns the new value of
  -- the key. The value is not empty, and the key is shorter than 1023 bytes.
  pub set_env_param_ram-get :
      (es' : List Bytes)
      → update key newvalue fop_ram [] es false [] ≡ rebuilt es'
      → IsText key
      → IsText newvalue
      → newvalue ≢ []
      → length key < 1023
      → (u' : Uboot) × (set_env_param_ram word u key newvalue ≡ done u' none)
        × (uboot_env_get_param u' key ≡ value newvalue)
  unfolding set_env_param_ram
  set_env_param_ram-get es' h tk tv some_value short =
      let fits =
        rebuilt-fits word u sum es pad total loaded key newvalue fop_ram room tk tv es' h in
      let u' = record u { uenv = some ((0 ∷ 0 ∷ 0 ∷ 0 ∷ []) ++ buffer total es') } in
      (
        u',
        uboot_setenv_cb-update word u sum es pad total loaded key newvalue fop_ram room none
            ∙ ap (stored word u fop_ram sum es pad total) h,
        get-buffer u' (0 ∷ 0 ∷ 0 ∷ 0 ∷ []) total es' key refl refl fits.0 fits.1 tk short
            ∙ update-lookup key newvalue fop_ram some_value [] es [] false es' refl h,
      )

  -- On a loaded environment where the new assignments fit, and where the walk does not end at an
  -- entry whose value has the size of the new one or that has no `=`, setting a variable to a
  -- value that is not empty loses every variable whose longer name begins with the key:
  -- `set_env_param_ram` succeeds, and `uboot_env_get_param` does not find the longer name, of
  -- less than 1023 bytes.
  pub set_env_param_ram-loses :
      (es' : List Bytes)
      → update key newvalue fop_ram [] es false [] ≡ rebuilt es'
      → IsText key
      → IsText newvalue
      → newvalue ≢ []
      → (c : ℕ) (cs : Bytes) → c ≢ b'='
      → IsText (key ++ c ∷ cs)
      → length (key ++ c ∷ cs) < 1023
      → (u' : Uboot) × (set_env_param_ram word u key newvalue ≡ done u' none)
        × (uboot_env_get_param u' (key ++ c ∷ cs) ≡ missing)
  unfolding set_env_param_ram
  set_env_param_ram-loses es' h tk tv some_value c cs other tl short =
      let fits =
        rebuilt-fits word u sum es pad total loaded key newvalue fop_ram room tk tv es' h in
      let u' = record u { uenv = some ((0 ∷ 0 ∷ 0 ∷ 0 ∷ []) ++ buffer total es') } in
      (
        u',
        uboot_setenv_cb-update word u sum es pad total loaded key newvalue fop_ram room none
            ∙ ap (stored word u fop_ram sum es pad total) h,
        get-buffer u' (0 ∷ 0 ∷ 0 ∷ 0 ∷ []) total es' (key ++ c ∷ cs) refl refl fits.0 fits.1 tl
              short
            ∙ update-loses key newvalue fop_ram some_value c cs other es es' h,
      )
