-- ===== src/Dns/Records.antt =====
-- The loop of `parse_dns_resp` over the records, and the whole of it.
use mathlib.Core.Path.{subst}
use ipctool.Base.{
  ℕ, zero, suc, ◌+◌, ◌*◌, ◌-◌, ◌%◌, ◌≤◌, ◌<◌, ◌≡◌, refl, sym, ap, ◌∙◌, List, [], ◌∷◌, ◌++◌, length,
  Option, some, none, length-append, arith, Bool-cases, Option-cases, ltb, ◌==◌, ◌||◌, not, take,
  drop, length-take_le, leb, drop-append_left, inl, inr, bit_and, length-drop, get_elem?,
}
use ipctool.Base.Bits.{bit_and-15}
use ipctool.Base.Bytes.{Bytes}
use ipctool.Dns.{
  NameLoop, ended, running, name_loop, question_name, joined, ntohs, addr_at, Parsed, records,
  refused, unfinished, overrun, add_address, advance, take_record, record_loop, after_name,
  parse_body, parse_dns_resp, max_arecords,
}
use ipctool.Dns.Request.{DotFree, AllDotFree, dotted}
use ipctool.Dns.Name.{AllFilled, NoZero, name_loop-question, name_loop-running}

-- At most 16 addresses, of four bytes each.
abbrev pub FourBytes : List Bytes → Type 0
FourBytes [] = Unit {0}
FourBytes (a ∷ srv) = (length a ≡ 4) × FourBytes srv

-- It has ended inside the buffer, and the addresses fit the array.
abbrev pub Ended : Parsed → Type 0
Ended (records srv) = (length srv ≤ max_arecords) × FourBytes srv
Ended refused = Unit {0}
Ended overrun = ⊥
Ended unfinished = ⊥

FourBytes-append :
    (srv : List Bytes) (a : Bytes) → FourBytes srv → length a ≡ 4 → FourBytes (srv ++ (a ∷ []))
FourBytes-append [] a f h = (h, tt)
FourBytes-append (b ∷ srv) a f h = (f.0, FourBytes-append srv a f.1 h)

-- One record more was taken, which is at least 12 bytes.
abbrev Taken : ℕ → List Bytes → Option (ℕ × List Bytes) → Type 0
Taken at srv none = ⊥
Taken at srv (some (next, more)) =
    (at + 12 ≤ next) × (length more ≤ length srv + 1) × FourBytes more

abbrev Added : List Bytes → Option (List Bytes) → Type 0
Added srv none = ⊥
Added srv (some more) = (length more ≤ length srv + 1) × FourBytes more

-- Two bytes inside the buffer.
get_elem-some : (buf : Bytes) (at : ℕ) → at < length buf → (b : ℕ) × (get_elem? buf at ≡ some b)
get_elem-some [] at h = absurd (omega arith)
get_elem-some (b ∷ buf) zero h = (b, refl)
get_elem-some (b ∷ buf) (suc at) h = get_elem-some buf at (omega arith)

ntohs-some : (buf : Bytes) (at : ℕ) → at + 2 ≤ length buf → (n : ℕ) × (ntohs buf at ≡ some n)
unfolding ntohs joined
ntohs-some buf at h =
    let (a, ea) = get_elem-some buf at (omega arith) in
    let (b, eb) = get_elem-some buf (at + 1) (omega arith) in (a * 256 + b, rw (ea, eb) refl)

add_address-Added :
    (buf : Bytes) (at : ℕ) (srv : List Bytes) (type : ℕ)
    → at + 16 ≤ length buf
    → FourBytes srv
    → Added srv (add_address buf at srv (some type))
unfolding add_address addr_at
add_address-Added buf at srv t inside four = elim (Bool-cases (t == 1)) [
  | inl y ↦ elim (Bool-cases (leb (at + 12 + 4) (length buf))) [
    | inl fits ↦
        let a = take 4 (drop (at + 12) buf) in
        let here : length a ≡ 4 =
          length-take_le 4 (drop (at + 12) buf) (ground (arith, fits, length-drop (at + 12) buf)) in
        rw (y, fits) (omega (arith, length-append srv (a ∷ [])), FourBytes-append srv a four here)
    | inr no_room ↦ absurd (ground (arith, no_room, inside))
  ]
  | inr n ↦ rw n (omega arith, four)
]

advance-Taken :
    (at : ℕ) (srv : List Bytes) (len : ℕ) (more : Option (List Bytes))
    → Added srv more
    → Taken at srv (advance at (some len) more)
unfolding advance
advance-Taken at srv len (some more) h = (omega arith, h.0, h.1)
advance-Taken at srv len none h = h

take_record-Taken :
    (buf : Bytes) (at : ℕ) (srv : List Bytes)
    → at + 16 ≤ length buf
    → FourBytes srv
    → Taken at srv (take_record buf at srv)
unfolding take_record
take_record-Taken buf at srv inside four =
    let (type, type_is) = ntohs-some buf (at + 2) (omega arith) in
    let (len, len_is) = ntohs-some buf (at + 10) (omega arith) in
    rw (type_is, len_is)
      (advance-Taken at srv len (add_address buf at srv (some type))
        (add_address-Added buf at srv type inside four))

record_loop-Ended :
    (fuel : ℕ) (buf : Bytes) (rlen at : ℕ) (srv : List Bytes)
    → rlen + 15 ≤ length buf
    → rlen - at < fuel
    → length srv ≤ max_arecords
    → FourBytes srv
    → Ended (record_loop fuel buf rlen at srv)
unfolding record_loop
record_loop-Ended zero buf rlen at srv room enough few four = absurd (omega (arith, enough))
record_loop-Ended (suc fuel) buf rlen at srv room enough few four =
    elim (Bool-cases (not (ltb at rlen) || length srv == max_arecords)) [
      | inl y ↦ rw y (few, four)
      | inr n ↦
          let inside : at < rlen = ground (arith, n) in
          let taken = take_record-Taken buf at srv (omega (arith, inside, room)) four in
          elim (Option-cases (take_record buf at srv)) [
            | inl e ↦ absurd (subst (Taken at srv) e taken)
            | inr ((next, more), e) ↦
                let (ahead, one, again) = subst (Taken at srv) e taken in
                rw (n, e)
                  (record_loop-Ended fuel buf rlen next more room
                    (omega (arith, ahead, inside, enough)) (ground (arith, one, few, n)) again)
          ]
    ]

after_name-Ended :
    (fuel : ℕ) (header : Bytes) (rlen total : ℕ) (name : Bytes) (r : NameLoop)
    → r ≡ ended total name
    → rlen + 15 ≤ length (header ++ name)
    → rlen < fuel
    → Ended (after_name fuel header rlen r)
unfolding after_name
after_name-Ended fuel header rlen total name r e room enough =
    subst (λ k. Ended (after_name fuel header rlen k)) (sym e)
      (record_loop-Ended fuel (header ++ name) rlen (12 + total + 5) [] room (omega (arith, enough))
        (omega arith) tt)

parse_body-Ended :
    (fuel : ℕ) (buf : Bytes) (rlen total : ℕ) (name : Bytes) (flags : ℕ)
    → name_loop fuel 0 (drop 12 buf) ≡ ended total name
    → rlen + 15 ≤ length (take 12 buf ++ name)
    → rlen < fuel
    → Ended (parse_body fuel buf rlen (some flags))
unfolding parse_body
parse_body-Ended fuel buf rlen total name flags e room enough =
    elim (Bool-cases (not (bit_and flags 15 == 0))) [
      | inl y ↦ rw y tt
      | inr n ↦ rw n (after_name-Ended fuel (take 12 buf) rlen total name _ e room enough)
    ]

drop-12 : (header rest : Bytes) → length header ≡ 12 → drop 12 (header ++ rest) ≡ rest
drop-12 header rest h = subst (λ n. drop n (header ++ rest) ≡ rest) h (drop-append_left header rest)

-- On a response of `rlen` bytes that has the request's own question behind a header of 12 bytes,
-- of labels that have a byte and no dot, in a name of at most 254 bytes, in a buffer that has at
-- least 15 bytes behind the response: whatever follows the question in the buffer,
-- `parse_dns_resp` ends, within one round more than there are labels or bytes, without a read
-- outside the buffer, and either answers false or gives at most 16 addresses of four bytes.
pub parse_dns_resp-Ended :
    (fuel stale rlen : ℕ) (header : Bytes) (l : Bytes) (ls : List Bytes) (rest : Bytes)
    → length header ≡ 12
    → DotFree l
    → AllDotFree ls
    → AllFilled (l ∷ ls)
    → length (dotted l ls) ≤ 254
    → length (l ∷ ls) < fuel
    → rlen + 15 ≤ 12 + (length (dotted l ls) + 2 + length rest)
    → rlen < fuel
    → Ended (parse_dns_resp fuel (header ++ (question_name stale (dotted l ls) ++ rest)) rlen)
unfolding parse_dns_resp
parse_dns_resp-Ended fuel stale rlen header l ls rest twelve free all filled short labels room
      enough =
    let buf = header ++ (question_name stale (dotted l ls) ++ rest) in
    let question = question_name stale (dotted l ls) ++ rest in
    let (flags, flags_is) =
      ntohs-some buf 2 (omega (arith, length-append {0} header question, twelve)) in
    let name = 46 ∷ dotted l ls ++ (0 ∷ rest) in
    let behind : rlen + 15 ≤ length (take 12 buf ++ name) = omega (
      arith,
      room,
      length-append {0} (take 12 buf) name,
      length-append {0} (46 ∷ dotted l ls) (0 ∷ rest),
      length-take_le 12 buf (omega (arith, length-append {0} header question, twelve)),
    ) in
    rw flags_is (
      parse_body-Ended fuel buf rlen _ _ flags
        (ap (name_loop fuel 0) (drop-12 header (question_name stale (dotted l ls) ++ rest) twelve)
          ∙ name_loop-question fuel stale l ls rest free all filled short labels)
        behind enough)

parse_body-running :
    (fuel : ℕ) (buf : Bytes) (rlen flags : ℕ)
    → bit_and flags 15 ≡ 0
    → name_loop fuel 0 (drop 12 buf) ≡ running
    → parse_body fuel buf rlen (some flags) ≡ unfinished
unfolding parse_body after_name
parse_body-running fuel buf rlen flags good e = rw (good, e) refl

-- On a response of 512 bytes that reports no error, without a 0 in the bytes behind its header,
-- `parse_dns_resp` never ends: however many rounds it is given, it is still in the loop over the name.
pub parse_dns_resp-unfinished :
    (fuel rlen x0 x1 high low : ℕ) (back : Bytes)
    → low % 16 ≡ 0
    → length back ≡ 508
    → NoZero (drop 8 back)
    → parse_dns_resp fuel (x0 ∷ x1 ∷ high ∷ low ∷ back) rlen ≡ unfinished
unfolding parse_dns_resp ntohs joined
parse_dns_resp-unfinished fuel rlen x0 x1 high low back fine long full =
    let flags = high * 256 + low in
    parse_body-running fuel (x0 ∷ x1 ∷ high ∷ low ∷ back) rlen flags
      (bit_and-15 flags ∙ omega (arith, fine))
      (name_loop-running fuel 0 (drop 8 back) full (omega (arith, long, length-drop 8 back))
        (omega arith))
