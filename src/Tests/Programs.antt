-- ===== src/Tests/Programs.antt =====
-- The theorems on the example programs, on the network of the samples.
use marko_cpp.Prelude.{ℕ, Bytes, codes, [], ◌∷◌, ◌≡◌, refl, arith}
use marko_cpp.Outcome.{returned}
use marko_cpp.Sockaddr.{stoi}
use marko_cpp.Prelude.Decimal.{strtol}
use marko_cpp.Examples.SockAddress.{main}
use marko_cpp.Regex.{strip, words, greedy, plus, match_here, search_from, regex_search, in_class}
use marko_cpp.Message.{Layout}
use marko_cpp.Examples.Ps.{DataT}
use marko_cpp.Examples.Rr.{RequestT, ResponseT}
use marko_cpp.Examples.Simple.{receive_loop}
use marko_cpp.Examples.Simple.Rounds.{receive_loop_text}
use marko_cpp.Tests.Samples.{Net, for_client, os, network, client_fd}

abbrev silent : Bytes → Net → Net
silent msg w = w

receive_loop_text_example :
    receive_loop os silent 1
      (record { fd = client_fd; world = network (for_client (codes "hi") ∷ []) })
    ≡ receive_loop os silent 0 (record { fd = client_fd; world = network [] })
unfolding in_class
receive_loop_text_example =
    receive_loop_text os silent 0 (codes "hi")
      (record { fd = client_fd; world = network (for_client (codes "hi") ∷ []) }) (refl, (refl, tt))
      (omega arith) refl refl

abbrev pub request_of : Bytes → RequestT ℕ ℕ
request_of (x ∷ y ∷ m) = record { a = x; b = y }
request_of m = record { a = 0; b = 0 }

abbrev pub response_of : Bytes → ResponseT ℕ
response_of (x ∷ m) = record { a = x }
response_of m = record { a = 0 }

-- A request of two numbers as two bytes, and a response of one.
abbrev pub request_layout : Layout (RequestT ℕ ℕ)
request_layout = record {
  size = 2;
  bytes = λ d. d.a ∷ d.b ∷ [];
  value_of = request_of;
  length-bytes = λ d. refl;
  value_of-bytes = λ d. refl;
}

abbrev pub response_layout : Layout (ResponseT ℕ)
response_layout = record {
  size = 1;
  bytes = λ d. d.a ∷ [];
  value_of = response_of;
  length-bytes = λ d. refl;
  value_of-bytes = λ d. refl;
}

abbrev pub data_of : Bytes → DataT ℕ ℕ
data_of (x ∷ y ∷ m) = record { a = x; b = y }
data_of m = record { a = 0; b = 0 }

abbrev pub data_layout : Layout (DataT ℕ ℕ)
data_layout = record {
  size = 2;
  bytes = λ d. d.a ∷ d.b ∷ [];
  value_of = data_of;
  length-bytes = λ d. refl;
  value_of-bytes = λ d. refl;
}

-- The two addresses with a port print nothing.
main_prints : main ≡ ((codes "unix path: /bob/here") ∷ [], returned tt)
unfolding main regex_search search_from match_here words plus greedy strip in_class stoi strtol
main_prints = refl
