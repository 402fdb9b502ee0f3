-- ===== src/Tests/Dns.antt =====
-- Instances of the theorems at concrete inputs: control/src/net/dns.rs.
use dae_rs.Prelude.{ℕ, ◌≡◌, ◌≤◌, ◌⊎◌, true, false, List, [], ◌∷◌, ◌++◌, none, length, arith}
use dae_rs.Text.{text}
use dae_rs.Dns.Read.{Ensures, Anything}
use dae_rs.Dns.Wire.{parse_dns_query}
use dae_rs.Dns.Wire.Settles.{parse_dns_query-settles}
use dae_rs.Dns.Ttl.{parse_response_min_ttl}
use dae_rs.Dns.Ttl.Bounds.{parse_response_min_ttl-settles}
use dae_rs.Dns.Response.{build_error_response}
use dae_rs.Dns.Response.Laws.{ErrorAnswer, build_error_response-ErrorAnswer}
use dae_rs.Dns.Cache.{CacheKey, dns_cache_max, get, insert}
use dae_rs.Dns.Cache.History.{Distinct, insert-bounded}
use dae_rs.Dns.Cache.Replay.{Store, replay, current, get-replay, get-replay_exact}

-- A question for the address of `a`, with the flag RD.
abbrev question : List ℕ
question = 1 ∷ 97 ∷ 0 ∷ 0 ∷ 1 ∷ 0 ∷ 1 ∷ []

abbrev query : List ℕ
query = 0x12 ∷ 0x34 ∷ 1 ∷ 0 ∷ 0 ∷ 1 ∷ 0 ∷ 0 ∷ 0 ∷ 0 ∷ 0 ∷ 0 ∷ question

-- Two addresses, for 300 and 60 seconds.
abbrev answer : ℕ → ℕ → List ℕ
answer high low = 0xc0 ∷ 12 ∷ 0 ∷ 1 ∷ 0 ∷ 1 ∷ 0 ∷ 0 ∷ high ∷ low ∷ 0 ∷ 4 ∷ 10 ∷ 0 ∷ 0 ∷ 1 ∷ []

abbrev response : List ℕ
response =
    (0x12 ∷ 0x34 ∷ 0x81 ∷ 0x80 ∷ 0 ∷ 1 ∷ 0 ∷ 2 ∷ 0 ∷ 0 ∷ 0 ∷ 0 ∷ question)
    ++ (answer 1 44 ++ answer 0 60)

-- No such name, and no SOA record.
abbrev no_answer : List ℕ
no_answer = (0x12 ∷ 0x34 ∷ 0x81 ∷ 0x83 ∷ 0 ∷ 1 ∷ 0 ∷ 0 ∷ 0 ∷ 0 ∷ 0 ∷ 0 ∷ question)

parse_dns_query-settles_example : Ensures Anything (parse_dns_query query)
parse_dns_query-settles_example = parse_dns_query-settles query

parse_response_min_ttl-settles_example : Ensures Anything (parse_response_min_ttl response)
parse_response_min_ttl-settles_example = parse_response_min_ttl-settles response

build_error_response-ErrorAnswer_example : ErrorAnswer query 2 (build_error_response query 2)
build_error_response-ErrorAnswer_example =
    build_error_response-ErrorAnswer query 2 (omega arith) (omega arith)

abbrev key : CacheKey
key = record { qname = text "a"; qtype = 1; has_edns = false; do_bit = false }

abbrev stores : List Store
stores =
    record { at = 20; key = key; response = response; ttl = 60 }
    ∷ record { at = 10; key = record key { do_bit = true }; response = query; ttl = 5 }
    ∷ []

get-replay_example :
    (get 30 key (replay stores) ≡ current 30 key stores) ⊎ (get 30 key (replay stores) ≡ none)
get-replay_example = get-replay 30 key stores (omega arith, (omega arith, tt))

get-replay_exact_example : get 30 key (replay stores) ≡ current 30 key stores
get-replay_exact_example =
    get-replay_exact 30 key stores (omega arith, (omega arith, tt)) (omega arith)

insert-bounded_example :
    Distinct (insert 20 key response 60 [])
    × (length (insert 20 key response 60 []) ≤ dns_cache_max)
insert-bounded_example = insert-bounded 20 key response 60 [] tt (omega arith)
