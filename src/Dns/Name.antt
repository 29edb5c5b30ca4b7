-- ===== src/Dns/Name.antt =====
-- The loop of `parse_dns_resp` over the name in the response.
use mathlib.Core.List.{append_assoc, append-nil}
use ipctool.Base.{
  ℕ, zero, suc, ◌+◌, ◌≤◌, ◌<◌, ◌≡◌, refl, sym, ap, ◌∙◌, List, [], ◌∷◌, ◌++◌, u8, set, length, some,
  get_elem?, get_or, length-append, length-set, arith,
}
use ipctool.Base.Bytes.{Bytes}
use ipctool.Dns.{ended, running, name_step, name_loop, question_name}
use ipctool.Dns.Request.{DotFree, AllDotFree, dotted, encoded, set-append, question_name-encoded}

-- Every label has a byte.
abbrev pub AllFilled : List Bytes → Type 0
AllFilled [] = Unit {0}
AllFilled (l ∷ ls) = (1 ≤ length l) × AllFilled ls

-- The labels, each behind a dot.
unfoldable pub rebuilt : List Bytes → Bytes
rebuilt [] = []
rebuilt (l ∷ ls) = 46 ∷ l ++ rebuilt ls

get_elem?-append :
    (front : Bytes) (x : ℕ) (back : Bytes) → get_elem? (front ++ (x ∷ back)) (length front) ≡ some x
get_elem?-append [] x back = refl
get_elem?-append (c ∷ front) x back = get_elem?-append front x back

get_or-append :
    (front : Bytes) (x d : ℕ) (back : Bytes) → get_or (front ++ (x ∷ back)) (length front) d ≡ x
get_or-append [] x d back = refl
get_or-append (c ∷ front) x d back = get_or-append front x d back

length-encoded : (ls : List Bytes) → 1 ≤ length (encoded ls)
unfolding encoded
length-encoded [] = omega arith
length-encoded (l ∷ ls) = omega arith

-- At a length that is not 0.
name_loop-field :
    (fuel : ℕ) (front back : Bytes) (len next : ℕ)
    → 1 ≤ len
    → u8 (length front + len + 1) ≡ next
    → name_loop (suc fuel) (length front) (front ++ (len ∷ back))
      ≡ name_loop fuel next (front ++ (46 ∷ back))
unfolding name_loop name_step
name_loop-field fuel front back zero next some' e = absurd (omega (arith, some'))
name_loop-field fuel front back (suc n) next some' e =
    rw
      (
        get_elem?-append front (suc n) back,
        get_or-append front (suc n) 0 back,
        e,
        set-append front (suc n) 46 back,
      )
      refl

-- At the 0 behind the last field.
name_loop-end :
    (fuel : ℕ) (front back : Bytes)
    → name_loop (suc fuel) (length front) (front ++ (0 ∷ back))
      ≡ ended (length front) (front ++ (0 ∷ back))
unfolding name_loop name_step
name_loop-end fuel front back = rw (get_elem?-append front 0 back, set-append front 0 0 back) refl

name_loop-encoded :
    (fuel : ℕ) (front : Bytes) (ls : List Bytes) (rest : Bytes)
    → length ls < fuel
    → AllFilled ls
    → length front + length (encoded ls) ≤ 256
    → name_loop fuel (length front) (front ++ (encoded ls ++ rest))
      ≡ ended (length front + length (rebuilt ls)) (front ++ (rebuilt ls ++ (0 ∷ rest)))
unfolding encoded rebuilt
name_loop-encoded zero front ls rest h filled short = absurd (omega (arith, h))
name_loop-encoded (suc fuel) front [] rest h filled short =
    name_loop-end fuel front rest ∙ ap (λ n. ended n (front ++ (0 ∷ rest))) (omega arith)
name_loop-encoded (suc fuel) front (l ∷ ls) rest h filled short =
    let passed = front ++ (46 ∷ l) in
    let seen = length-append front (46 ∷ l) in
    let sum = length-append l (encoded ls) in
    let e : u8 (length front + u8 (length l) + 1) ≡ length passed =
      omega (arith, seen, sum, short, length-encoded ls) in
    let again : front ++ (46 ∷ (l ++ encoded ls) ++ rest) ≡ passed ++ (encoded ls ++ rest) =
      ap (λ t. front ++ (46 ∷ t)) (append_assoc l (encoded ls) rest)
      ∙ sym (append_assoc front (46 ∷ l) (encoded ls ++ rest)) in
    let whole : passed ++ (rebuilt ls ++ (0 ∷ rest))
        ≡ front ++ (46 ∷ (l ++ rebuilt ls) ++ (0 ∷ rest)) =
      append_assoc front (46 ∷ l) (rebuilt ls ++ (0 ∷ rest))
      ∙ ap (λ t. front ++ (46 ∷ t)) (sym (append_assoc l (rebuilt ls) (0 ∷ rest))) in
    let count : length passed + length (rebuilt ls)
        ≡ length front + suc (length (l ++ rebuilt ls)) =
      omega (arith, seen, length-append l (rebuilt ls)) in
    name_loop-field fuel front ((l ++ encoded ls) ++ rest) (u8 (length l)) (length passed)
      (omega (arith, filled.0, sum, short)) e
    ∙ ap (name_loop fuel (length passed)) again
    ∙ name_loop-encoded fuel passed ls rest (omega (arith, h)) filled.1
        (omega (arith, seen, sum, short))
    ∙ ap (λ n. ended n (passed ++ (rebuilt ls ++ (0 ∷ rest)))) count
    ∙ ap (ended (length front + suc (length (l ++ rebuilt ls)))) whole

rebuilt-dotted : (l : Bytes) (ls : List Bytes) → rebuilt (l ∷ ls) ≡ 46 ∷ dotted l ls
unfolding rebuilt dotted
rebuilt-dotted l [] = ap (◌∷◌ 46) (append-nil l)
rebuilt-dotted l (m ∷ ls) = ap (λ t. 46 ∷ (l ++ t)) (rebuilt-dotted m ls)

length-encoded-dotted :
    (l : Bytes) (ls : List Bytes) → length (encoded (l ∷ ls)) ≡ length (dotted l ls) + 2
unfolding encoded dotted
length-encoded-dotted l [] = omega (arith, length-append l (0 ∷ []))
length-encoded-dotted l (m ∷ ls) = omega (
  arith,
  length-append l (encoded (m ∷ ls)),
  length-append l (46 ∷ dotted m ls),
  length-encoded-dotted m ls,
)

-- On a response with the request's own question, of labels that have a byte and no dot, in a name
-- of at most 254 bytes, the loop over the name ends, within one round more than there are labels,
-- and has put the name back, with a dot before it and a 0 behind it.
pub name_loop-question :
    (fuel stale : ℕ) (l : Bytes) (ls : List Bytes) (rest : Bytes)
    → DotFree l
    → AllDotFree ls
    → AllFilled (l ∷ ls)
    → length (dotted l ls) ≤ 254
    → length (l ∷ ls) < fuel
    → name_loop fuel 0 (question_name stale (dotted l ls) ++ rest)
      ≡ ended (length (dotted l ls) + 1) (46 ∷ dotted l ls ++ (0 ∷ rest))
name_loop-question fuel stale l ls rest free all filled short enough =
    ap (λ t. name_loop fuel 0 (t ++ rest)) (question_name-encoded stale l ls free all)
    ∙ name_loop-encoded fuel [] (l ∷ ls) rest enough filled
        (omega (arith, short, length-encoded-dotted l ls))
    ∙ ap (λ t. ended (0 + length t) (t ++ (0 ∷ rest))) (rebuilt-dotted l ls)
    ∙ ap (λ n. ended n (46 ∷ dotted l ls ++ (0 ∷ rest))) (omega arith)

abbrev pub NoZero : Bytes → Type 0
NoZero [] = Unit {0}
NoZero (c ∷ cs) = (1 ≤ c) × NoZero cs

no_zero-set : (name : Bytes) (at v : ℕ) → 1 ≤ v → NoZero name → NoZero (set name at v)
no_zero-set [] at v h n = tt
no_zero-set (c ∷ cs) zero v h n = (h, n.1)
no_zero-set (c ∷ cs) (suc at) v h n = (n.0, no_zero-set cs at v h n.1)

-- Inside, there is a byte that is not 0.
no_zero-get :
    (name : Bytes) (at : ℕ)
    → NoZero name
    → at < length name
    → (n : ℕ) × (get_elem? name at ≡ some (suc n))
no_zero-get [] at n h = absurd (omega (arith, h))
no_zero-get (zero ∷ cs) zero n h = absurd (omega (arith, n))
no_zero-get (suc c ∷ cs) zero n h = (c, refl)
no_zero-get (c ∷ cs) (suc at) n h = no_zero-get cs at n.1 (omega (arith, h))

-- On a response without a 0 in the 256 bytes behind its header, the loop over the name never ends:
-- the sum of the lengths is kept modulo 256, so that the loop does not leave them.
pub name_loop-running :
    (fuel total : ℕ) (name : Bytes)
    → NoZero name
    → 256 ≤ length name
    → total < 256
    → name_loop fuel total name ≡ running
unfolding name_loop name_step
name_loop-running zero total name full long low = refl
name_loop-running (suc fuel) total name full long low =
    let (n, e) = no_zero-get name total full (omega (arith, long, low)) in
    rw e (
      name_loop-running fuel (u8 (total + get_or name total 0 + 1)) (set name total 46)
        (no_zero-set name total 46 (omega arith) full)
        (omega (arith, long, length-set name total 46)) (omega arith))
