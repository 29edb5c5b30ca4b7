-- ===== src/Dns.antt =====
-- src/dns.c: the request for a name's addresses, the reading of the response, and the servers.
-- An address is its four bytes in memory.
pub mod Request
pub mod Name
pub mod Records
pub mod Servers
use ipctool.Base.{
  ℕ, zero, suc, ◌+◌, ◌*◌, ◌-◌, ◌/◌, ◌%◌, Bool, true, false, ◌&&◌, ◌||◌, not, Option, none, some,
  List, [], ◌∷◌, ◌++◌, ◌==◌, ltb, leb, u8, bit_and, if◌then◌else◌, get_elem?, get_or, set, take,
  drop, length, replicate,
}
use ipctool.Base.Bytes.{Bytes, equal}

abbrev pub max_arecords : ℕ
max_arecords = 16

abbrev pub max_nservers : ℕ
max_nservers = 16

abbrev pub max_dns_packet : ℕ
max_dns_packet = 512

-- xid, flags and qdcount in network order, and three counts of 0
abbrev pub request_header : Bytes
request_header = 0x12 ∷ 0x34 ∷ 0x01 ∷ 0x00 ∷ 0x00 ∷ 0x01 ∷ replicate 6 0

-- dnstype and dnsclass
abbrev pub question : Bytes
question = 0 ∷ 1 ∷ 0 ∷ 1 ∷ []

-- The traversal of the name: `i` counts its bytes, `prev` is a place in the question's name.
pub fill_fields : Bytes → ℕ → ℕ → ℕ → Bytes → Bytes
fill_fields [] i prev count name = set name prev count
fill_fields (c ∷ cs) i prev count name =
    if c == 46
    then fill_fields cs (i + 1) (i + 1) 0 (set name prev count)
    else fill_fields cs (i + 1) prev (u8 (count + 1)) name

-- What stands between the header and the question; the first byte is not initialised by `strcpy`.
pub question_name : ℕ → Bytes → Bytes
unfolding fill_fields
question_name stale hostname = fill_fields hostname 0 0 0 (stale ∷ hostname ++ (0 ∷ []))

pub fill_dns_req : ℕ → Bytes → Bytes
unfolding question_name
fill_dns_req stale hostname = request_header ++ question_name stale hostname ++ question

-- The loop over the fields: it ends with `total` and the buffer, is still running when the fuel is
-- used up, or reads outside the buffer.
pub data NameLoop : Type 0 where
  ended : ℕ → Bytes → NameLoop
  running outside : NameLoop

-- From start_of_name on. Each round puts a dot in the place of a field's length.
pub name_step : ℕ → Option ℕ → Bytes → NameLoop → NameLoop
name_step total none name rest = outside
name_step total (some zero) name rest = ended total (set name total 0)
name_step total (some (suc n)) name rest = rest

pub name_loop : ℕ → ℕ → Bytes → NameLoop
unfolding name_step
name_loop zero total name = running
name_loop (suc fuel) total name =
    name_step total (get_elem? name total) name
      (name_loop fuel (u8 (total + get_or name total 0 + 1)) (set name total 46))

-- Two bytes in network order.
pub joined : Option ℕ → Option ℕ → Option ℕ
joined (some high) (some low) = some (high * 256 + low)
joined (some high) none = none
joined none low = none

pub ntohs : Bytes → ℕ → Option ℕ
unfolding joined
ntohs buf at = joined (get_elem? buf at) (get_elem? buf (at + 1))

-- The four bytes at a place.
pub addr_at : Bytes → ℕ → Option Bytes
addr_at buf at = if leb (at + 4) (length buf) then some (take 4 (drop at buf)) else none

-- What `parse_dns_resp` does: it answers true with the addresses, it answers false, it is still in
-- a loop when the fuel is used up, or it reads outside the buffer.
pub data Parsed : Type 0 where
  records : List Bytes → Parsed
  refused unfinished overrun : Parsed

-- srv->ipv4_addr[srv->len++] = rec->addr
pub add_address : Bytes → ℕ → List Bytes → Option ℕ → Option (List Bytes)
unfolding addr_at
add_address buf at srv none = none
add_address buf at srv (some type) =
    if type == 1
    then elim (addr_at buf (at + 12)) [ none ↦ none | some a ↦ some (srv ++ (a ∷ [])) ]
    else some srv

-- rec + ntohs(rec->length) + 12
pub advance : ℕ → Option ℕ → Option (List Bytes) → Option (ℕ × List Bytes)
advance at (some len) (some srv) = some (at + len + 12, srv)
advance at (some len) none = none
advance at none srv = none

-- One record: where the next one starts, and the addresses.
pub take_record : Bytes → ℕ → List Bytes → Option (ℕ × List Bytes)
unfolding add_address advance ntohs
take_record buf at srv =
    advance at (ntohs buf (at + 10)) (add_address buf at srv (ntohs buf (at + 2)))

-- The loop over the records, of the first `rlen` bytes.
pub record_loop : ℕ → Bytes → ℕ → ℕ → List Bytes → Parsed
unfolding take_record
record_loop zero buf rlen at srv = unfinished
record_loop (suc fuel) buf rlen at srv =
    if not (ltb at rlen) || length srv == max_arecords
    then records srv
    else elim (take_record buf at srv) [
      | none ↦ overrun
      | some (next, more) ↦ record_loop fuel buf rlen next more
    ]

-- From the end of the name on: `total` bytes, a 0, and the question.
pub after_name : ℕ → Bytes → ℕ → NameLoop → Parsed
unfolding record_loop
after_name fuel header rlen (ended total name) =
    record_loop fuel (header ++ name) rlen (12 + total + 5) []
after_name fuel header rlen running = unfinished
after_name fuel header rlen outside = overrun

pub parse_body : ℕ → Bytes → ℕ → Option ℕ → Parsed
unfolding after_name name_loop
parse_body fuel buf rlen none = overrun
parse_body fuel buf rlen (some flags) =
    if not (bit_and flags 15 == 0)
    then refused
    else after_name fuel (take 12 buf) rlen (name_loop fuel 0 (drop 12 buf))

pub parse_dns_resp : ℕ → Bytes → ℕ → Parsed
unfolding parse_body ntohs
parse_dns_resp fuel buf rlen = parse_body fuel buf rlen (ntohs buf 2)

-- sendto and recvfrom: the bytes that came from a server, none where nothing came.
pub record Network (S : Type 0) : Type 0 where
  pub ask : S → Bytes → Bytes → Bytes × S

module _ {S : Type 0} (net : Network S) where
  -- if (rlen > 0) break
  pub or_next : Bytes × S → (S → Bytes × S) → Bytes × S
  or_next ([], s) next = next s
  or_next (b ∷ bs, s) next = (b ∷ bs, s)

  pub ask_servers : List Bytes → Bytes → S → Bytes × S
  unfolding or_next
  ask_servers [] packet s = ([], s)
  ask_servers (a ∷ ns) packet s = or_next (net.ask s a packet) (ask_servers ns packet)

  -- The response's buffer is cleared once, and what came stands at its start.
  pub received : Bytes → Bytes
  received bs = bs ++ replicate (max_dns_packet - length bs) 0

  pub resolv_name : ℕ → List Bytes → ℕ → Bytes → S → Parsed × S
  unfolding ask_servers received parse_dns_resp fill_dns_req
  resolv_name fuel ns stale hostname s =
      let r = ask_servers ns (fill_dns_req stale hostname) s in
      (parse_dns_resp fuel (received r.0) (length r.0), r.1)

pub htonl : ℕ → Bytes
htonl n = n / 0x100_0000 % 256 ∷ n / 0x1_0000 % 256 ∷ n / 0x100 % 256 ∷ n % 256 ∷ []

-- The arguments end with a 0.
pub add_predefined_ns : List Bytes → List ℕ → List Bytes
unfolding htonl
add_predefined_ns ns [] = ns
add_predefined_ns ns (a ∷ args) =
    let rest = add_predefined_ns (ns ++ (htonl a ∷ [])) args in
    if not (a == 0) && ltb (length ns) max_nservers then rest else ns

-- The servers of /etc/resolv.conf, from the four numbers of each line that has them. The place
-- behind the last server is written before its number is looked at: `spilled` says that it
-- was the one behind the array.
pub record Nservers : Type 0 where
  pub servers : List Bytes
  pub spilled : Bool

pub read_lines : List (Option Bytes) → Nservers → Nservers
read_lines [] ns = ns
read_lines (none ∷ lines) ns = read_lines lines ns
read_lines (some a ∷ lines) ns =
    let rest = read_lines lines (record ns { servers = ns.servers ++ (a ∷ []) }) in
    let full = length ns.servers == max_nservers in
    let after : Nservers = if full then record ns { spilled = true } else ns in
    if equal a (0 ∷ 0 ∷ 0 ∷ 0 ∷ []) || full then after else rest

-- `none` is a file that does not open.
pub parse_resolv_conf : Option (List (Option Bytes)) → Nservers → Bool × Nservers
unfolding read_lines
parse_resolv_conf none ns = (false, ns)
parse_resolv_conf (some lines) ns = (true, read_lines lines ns)
