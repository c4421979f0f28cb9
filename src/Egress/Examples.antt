-- ===== src/Egress/Examples.antt =====
-- The theorems about the gateway applied to concrete connections.
use octomus_agent.Base.{
  false, Bool, [], ◌∷◌, ◌++◌, ◌≡◌, ◌≢◌, ◌≤◌, refl, none, Text, Bytes, codes, length, split_at,
  arith, Text-discrete, Option-discrete, ℕ_discrete, byte_length,
}
use octomus_agent.Config.Identity.{split}
use octomus_agent.Sandbox.Wire.{valid_label}
use octomus_agent.Sandbox.Wire.Hosts.{
  normalize_host, check_host, trim_dot, trim_brackets, trim_brackets_left,
}
use octomus_agent.Egress.Hello.{
  tls_vector, check_name, check_names, check_server_name, check_extensions, check_last,
  check_compression, check_ciphers, check_session, check_version, check_client_hello, unfinished,
}
use octomus_agent.Egress.Hello.Body.{Named, check_client_hello-Named}
use octomus_agent.Egress.Hello.Records.{
  records_of, refused, read_record, read_records, read_client_hello, check_message,
  max_client_hello_wire,
}
use octomus_agent.Egress.Hello.Records.Inspected.{Inspection, read_client_hello-Inspection}
use octomus_agent.Egress.Hello.Records.Ends.{read_client_hello-finishes}

-- The texts of the examples are in lower case and no addresses.
abbrev same_text : Text → Text
same_text s = s

abbrev no_address : Text → Bool
no_address s = false

abbrev random : Bytes
random =
    0 ∷ 0 ∷ 0 ∷ 0 ∷ 0 ∷ 0 ∷ 0 ∷ 0 ∷ 0 ∷ 0 ∷ 0 ∷ 0 ∷ 0 ∷ 0 ∷ 0 ∷ 0 ∷ 0 ∷ 0 ∷ 0 ∷ 0 ∷ 0 ∷ 0 ∷ 0 ∷ 0
    ∷ 0 ∷ 0 ∷ 0 ∷ 0 ∷ 0 ∷ 0 ∷ 0 ∷ 0 ∷ []

-- A hello for a.b, whose message is cut into two records.
abbrev hello_body : Bytes
hello_body =
    3
    ∷ 3
    ∷ (random
        ++ (0 ∷ 0 ∷ 2 ∷ 19 ∷ 1 ∷ 1 ∷ 0 ∷ 0 ∷ 12 ∷ 0 ∷ 0 ∷ 0 ∷ 8 ∷ 0 ∷ 6 ∷ 0 ∷ 0 ∷ 3 ∷ b'a' ∷ b'.'
            ∷ b'b' ∷ []))

abbrev hello_records : Bytes
hello_records = 22 ∷ 3 ∷ 1 ∷ 0 ∷ 2 ∷ 1 ∷ 0 ∷ 22 ∷ 3 ∷ 1 ∷ 0 ∷ 57 ∷ 0 ∷ 55 ∷ hello_body

abbrev hello_input : Bytes
hello_input = hello_records ++ (23 ∷ 3 ∷ 3 ∷ [])

hello_accepted :
    read_client_hello same_text no_address (codes "a.b") hello_input
    ≡ records_of hello_records (23 ∷ 3 ∷ 3 ∷ [])
unfolding read_client_hello read_records read_record check_message check_client_hello check_version
    check_session check_ciphers check_compression check_last check_extensions check_server_name
    check_names check_name tls_vector split_at normalize_host check_host trim_dot trim_brackets
    trim_brackets_left split valid_label byte_length Text-discrete Option-discrete ℕ_discrete
hello_accepted = refl

body_accepted : check_client_hello same_text no_address (codes "a.b") hello_body ≡ none
unfolding check_client_hello check_version check_session check_ciphers check_compression check_last
    check_extensions check_server_name check_names check_name tls_vector split_at normalize_host
    check_host trim_dot trim_brackets trim_brackets_left split valid_label byte_length Text-discrete
    Option-discrete ℕ_discrete
body_accepted = refl

read_client_hello-Inspection_example :
    (hello_input ≡ hello_records ++ (23 ∷ 3 ∷ 3 ∷ []))
    × (length hello_records ≤ max_client_hello_wire)
    × Inspection same_text no_address (codes "a.b") hello_records
read_client_hello-Inspection_example =
    read_client_hello-Inspection same_text no_address (codes "a.b") hello_input hello_records
      (23 ∷ 3 ∷ 3 ∷ []) (omega arith) hello_accepted

check_client_hello-Named_example : Named same_text no_address (codes "a.b") hello_body
check_client_hello-Named_example =
    check_client_hello-Named same_text no_address (codes "a.b") hello_body (omega arith)
      body_accepted

read_client_hello-finishes_example :
    read_client_hello same_text no_address (codes "a.b") hello_input ≢ refused unfinished
read_client_hello-finishes_example =
    read_client_hello-finishes same_text no_address (codes "a.b") hello_input
