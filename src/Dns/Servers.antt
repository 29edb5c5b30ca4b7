-- ===== src/Dns/Servers.antt =====
-- The servers that are asked, and what comes back when none answers.
use ipctool.Base.{
  ℕ, suc, ◌≤◌, ◌≡◌, refl, ap, ◌∙◌, List, [], ◌∷◌, ◌++◌, length, length-append, arith, Bool, true,
  false, Bool-cases, Option, some, none, inl, inr, if◌then◌else◌, not, ◌==◌, ltb, ◌&&◌, ◌||◌,
}
use ipctool.Base.Bytes.{Bytes, equal}
use ipctool.Dns.{
  Network, or_next, ask_servers, received, resolv_name, records, parse_dns_resp, parse_body, ntohs,
  joined, name_loop, name_step, after_name, record_loop, add_predefined_ns, htonl, Nservers,
  read_lines, max_nservers, fill_dns_req,
}

module _ {S : Type 0} (net : Network S)
    (silent : (s : S) (a packet : Bytes) → (net.ask s a packet).0 ≡ []) where
  or_next-silent :
      (r : Bytes × S) (next : S → Bytes × S)
      → r.0 ≡ []
      → ((s : S) → (next s).0 ≡ [])
      → (or_next net r next).0 ≡ []
  unfolding or_next
  or_next-silent ([], s) next e h = h s
  or_next-silent (b ∷ bs, s) next e h = e

  ask_servers-silent :
      (ns : List Bytes) (packet : Bytes) (s : S) → (ask_servers net ns packet s).0 ≡ []
  unfolding ask_servers
  ask_servers-silent [] packet s = refl
  ask_servers-silent (a ∷ ns) packet s =
      or_next-silent (net.ask s a packet) (ask_servers net ns packet) (silent s a packet)
        (λ t. ask_servers-silent ns packet t)

  nothing_received : (fuel : ℕ) → parse_dns_resp (suc fuel) (received net []) 0 ≡ records []
  unfolding parse_dns_resp received parse_body ntohs joined name_loop name_step after_name
      record_loop
  nothing_received fuel = refl

  -- Where no server answers, and with any rounds at all, `resolv_name` reports success, without
  -- an address.
  pub resolv_name-silent :
      (fuel : ℕ) (ns : List Bytes) (stale : ℕ) (hostname : Bytes) (s : S)
      → (resolv_name net (suc fuel) ns stale hostname s).0 ≡ records []
  unfolding resolv_name
  resolv_name-silent fuel ns stale hostname s =
      ap (λ bs. parse_dns_resp (suc fuel) (received net bs) (length bs))
        (ask_servers-silent ns (fill_dns_req stale hostname) s)
      ∙ nothing_received fuel

-- The array of servers is not left.
pub add_predefined_ns-length :
    (ns : List Bytes) (args : List ℕ)
    → length ns ≤ max_nservers
    → length (add_predefined_ns ns args) ≤ max_nservers
unfolding add_predefined_ns
add_predefined_ns-length ns [] h = h
add_predefined_ns-length ns (a ∷ args) h =
    elim (Bool-cases (not (a == 0) && ltb (length ns) max_nservers)) [
      | inl y ↦ rw y (
          add_predefined_ns-length (ns ++ (htonl a ∷ [])) args
            (ground (arith, length-append ns (htonl a ∷ []), y)))
      | inr n ↦ rw n h
    ]

abbrev Fits : Nservers → Type 0
Fits ns = length ns.servers ≤ max_nservers

if-Fits : (b : Bool) (x y : Nservers) → Fits x → (b ≡ false → Fits y) → Fits (if b then x else y)
if-Fits true x y h k = h
if-Fits false x y h k = k refl

pub read_lines-length :
    (lines : List (Option Bytes)) (ns : Nservers)
    → length ns.servers ≤ max_nservers
    → length (read_lines lines ns).servers ≤ max_nservers
unfolding read_lines
read_lines-length [] ns h = h
read_lines-length (none ∷ lines) ns h = read_lines-length lines ns h
read_lines-length (some a ∷ lines) ns h =
    let full = length ns.servers == max_nservers in
    if-Fits (equal a (0 ∷ 0 ∷ 0 ∷ 0 ∷ []) || full) _ _ (if-Fits full _ ns h (λ _. h)) (λ n.
      read_lines-length lines (record ns { servers = ns.servers ++ (a ∷ []) })
        (ground (arith, length-append ns.servers (a ∷ []), n, h)))
