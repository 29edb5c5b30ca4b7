-- ===== src/Tests/DnsRuns.antt =====
-- Names and responses (src/dns.c) on "a.bc".
use ipctool.Base.{ℕ, zero, suc, ◌+◌, ◌≤◌, ◌≡◌, refl, List, [], ◌∷◌, ◌++◌, length, arith, replicate}
use ipctool.Base.Bytes.{Bytes}
use ipctool.Dns.{
  Network, records, unfinished, ended, fill_dns_req, question_name, name_loop, parse_dns_resp,
  resolv_name, request_header, question,
}
use ipctool.Dns.Request.{dotted, encoded, fill_dns_req-encoded}
use ipctool.Dns.Name.{NoZero, name_loop-question}
use ipctool.Dns.Records.{Ended, parse_dns_resp-Ended, parse_dns_resp-unfinished}
use ipctool.Dns.Servers.{resolv_name-silent}

abbrev host : List Bytes
host = (98 ∷ 99 ∷ []) ∷ []

fill_dns_req-encoded_example :
    fill_dns_req 7 (dotted (97 ∷ []) host)
    ≡ request_header ++ encoded ((97 ∷ []) ∷ host) ++ question
fill_dns_req-encoded_example =
    fill_dns_req-encoded 7 (97 ∷ []) host (refl, tt) ((refl, (refl, tt)), tt)

short : length (dotted (97 ∷ []) host) ≤ 254
unfolding dotted
short = omega arith

name_loop-question_example :
    name_loop 5 0 (question_name 7 (dotted (97 ∷ []) host) ++ (0 ∷ []))
    ≡ ended (length (dotted (97 ∷ []) host) + 1) (46 ∷ dotted (97 ∷ []) host ++ (0 ∷ 0 ∷ []))
name_loop-question_example =
    name_loop-question 5 7 (97 ∷ []) host (0 ∷ []) (refl, tt) ((refl, (refl, tt)), tt)
      (omega arith, (omega arith, tt)) short (omega arith)

abbrev answer_header : Bytes
answer_header = 0x12 ∷ 0x34 ∷ 0x81 ∷ 0x80 ∷ 0 ∷ 1 ∷ 0 ∷ 1 ∷ replicate 4 0

-- The question's end and one address, and bytes of the buffer behind the response.
abbrev answer : Bytes
answer =
    0
    ∷ 1
    ∷ 0
    ∷ 1
    ∷ 0xc0
    ∷ 12
    ∷ 0
    ∷ 1
    ∷ 0
    ∷ 1
    ∷ 0
    ∷ 0
    ∷ 0
    ∷ 60
    ∷ 0
    ∷ 4
    ∷ 10
    ∷ 0
    ∷ 0
    ∷ 1
    ∷ replicate 16 0

buffer_long : 38 + 15 ≤ 12 + (length (dotted (97 ∷ []) host) + 2 + length answer)
unfolding dotted
buffer_long = omega arith

parse_dns_resp-Ended_example :
    Ended
      (parse_dns_resp 100 (answer_header ++ (question_name 7 (dotted (97 ∷ []) host) ++ answer)) 38)
parse_dns_resp-Ended_example =
    parse_dns_resp-Ended 100 7 38 answer_header (97 ∷ []) host answer refl (refl, tt)
      ((refl, (refl, tt)), tt) (omega arith, (omega arith, tt)) short (omega arith) buffer_long
      (omega arith)

abbrev no_zero : (n : ℕ) → NoZero (replicate n 1)
no_zero zero = tt
no_zero (suc n) = (omega arith, no_zero n)

parse_dns_resp-unfinished_example :
    parse_dns_resp 1000 (0x12 ∷ 0x34 ∷ 0x81 ∷ 0x80 ∷ replicate 508 1) 512 ≡ unfinished
parse_dns_resp-unfinished_example =
    parse_dns_resp-unfinished 1000 512 0x12 0x34 0x81 0x80 (replicate 508 1) refl refl (no_zero 500)

-- Every server is silent.
abbrev mute : Network ℕ
mute = record { ask = λ s a packet. ([], s + 1) }

resolv_name-silent_example :
    (resolv_name mute 1 ((8 ∷ 8 ∷ 8 ∷ 8 ∷ []) ∷ []) 7 (97 ∷ []) 0).0 ≡ records []
resolv_name-silent_example =
    resolv_name-silent mute (λ s a packet. refl) 0 ((8 ∷ 8 ∷ 8 ∷ 8 ∷ []) ∷ []) 7 (97 ∷ []) 0
