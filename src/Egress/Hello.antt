-- ===== src/Egress/Hello.antt =====
-- internal/egress/clienthello.go: the inspection of a TLS ClientHello before a tunnel is opened. The
-- bitset of the extensions seen is the list of their kinds. Lower case and the recognition of an
-- address are parameters, as in Sandbox/Wire/Hosts.
use octomus_agent.Base.{
  ℕ, zero, suc, ◌+◌, ◌*◌, ◌-◌, ◌%◌, Bool, true, false, not, ◌&&◌, ◌||◌, List, [], ◌∷◌, ◌++◌, Option,
  none, some, if◌then◌else◌, ltb, leb, length, contains, last?, Bytes, split_at, u16, Text, text_eq,
  nat_eq, option_eq, ◌==◌, ◌!=◌,
}
use octomus_agent.Sandbox.Wire.Hosts.{Host, host_name, no_host, normalize_host}
mod Vectors
pub mod Named
pub mod Body
pub mod Records

pub data HelloError : Type 0 where
  hello_eof hello_unexpected_eof plaintext_required not_client_hello : HelloError
  malformed_hello large_hello encrypted_hello sni_required name_mismatch : HelloError
  unfinished : HelloError

pub data Width : Type 0 where
  one_byte two_bytes : Width

-- The vector and what follows it.
unfoldable pub tls_vector : Width → Bytes → Option (Bytes × Bytes)
unfolding split_at
tls_vector one_byte (n ∷ rest) = split_at n rest
tls_vector two_bytes (a ∷ b ∷ rest) = split_at (u16 a b) rest
tls_vector _ _ = none

-- A vector that is missing is a malformed hello.
abbrev pub and_vector :
    Option (Bytes × Bytes) → (Bytes → Bytes → Option HelloError) → Option HelloError
and_vector none next = some malformed_hello
and_vector (some (value, rest)) next = next value rest

abbrev pub is_ascii : Bytes → Bool
is_ascii [] = true
is_ascii (c ∷ s) = leb c 127 && is_ascii s

abbrev pub mismatch : Text → Host → Option HelloError
mismatch host (no_host e) = some malformed_hello
mismatch host (host_name name) = if name != host then some name_mismatch else none

abbrev pub and_error : Option HelloError → Option HelloError → Option HelloError
and_error none next = next
and_error (some e) next = some e

abbrev pub version_ok : Bytes → Bool
version_ok (a ∷ b ∷ rest) = a == 3 && leb 1 b && leb b 3
version_ok _ = false

module _ (lower : Text → Text) (is_address : Text → Bool) (host : Text) where
  unfoldable pub check_name : Bytes → Bytes → Option HelloError
  check_name name rest =
      if rest != [] || name == [] || last? name == some b'.' || not (is_ascii name)
      then some malformed_hello
      else mismatch host (normalize_host lower is_address name)

  -- The list of names, behind its length.
  unfoldable pub check_names : Bytes → Bytes → Option HelloError
  unfolding check_name
  check_names (name_type ∷ names) rest =
      if rest != [] || name_type != 0
      then some malformed_hello
      else and_vector (tls_vector two_bytes names) check_name
  check_names [] rest = some malformed_hello

  unfoldable pub check_server_name : Bytes → Option HelloError
  unfolding check_names
  check_server_name value = and_vector (tls_vector two_bytes value) check_names

  -- The switch on the kind of an extension; `next` goes on with whether a name is found.
  abbrev pub check_kind : ℕ → Bytes → Bool → (Bool → Option HelloError) → Option HelloError
  check_kind kind value found next =
      if kind == 0
      then and_error (check_server_name value) (next true)
      else if kind == 0xfe0d
      then some encrypted_hello
      else next found

  -- The loop over the extensions, with a bound on its rounds.
  unfoldable pub check_extensions : ℕ → List ℕ → Bool → Bytes → Option HelloError
  unfolding tls_vector
  check_extensions rounds seen found [] = if found then none else some sni_required
  check_extensions zero seen found (a ∷ extensions) = some unfinished
  check_extensions (suc rounds) seen found (a ∷ b ∷ c ∷ d ∷ extensions) =
      and_vector (tls_vector two_bytes (c ∷ d ∷ extensions)) (λ value next.
        if contains seen (u16 a b)
        then some malformed_hello
        else check_kind (u16 a b) value found
            (λ now. check_extensions rounds (u16 a b ∷ seen) now next))
  check_extensions (suc rounds) seen found _ = some malformed_hello

  unfoldable pub check_last : Bytes → Bytes → Option HelloError
  unfolding check_extensions
  check_last extensions rest =
      if rest != []
      then some malformed_hello
      else check_extensions (length extensions) [] false extensions

  unfoldable pub check_compression : Bytes → Bytes → Option HelloError
  unfolding check_last
  check_compression compression rest =
      if compression == []
      then some malformed_hello
      else and_vector (tls_vector two_bytes rest) check_last

  unfoldable pub check_ciphers : Bytes → Bytes → Option HelloError
  unfolding check_compression
  check_ciphers ciphers rest =
      if ltb (length ciphers) 2 || length ciphers % 2 != 0
      then some malformed_hello
      else and_vector (tls_vector one_byte rest) check_compression

  unfoldable pub check_session : Bytes → Bytes → Option HelloError
  unfolding check_ciphers
  check_session session rest =
      if ltb 32 (length session)
      then some malformed_hello
      else and_vector (tls_vector two_bytes rest) check_ciphers

  unfoldable pub check_version : Bytes → Bytes → Option HelloError
  unfolding check_session
  check_version head rest =
      if not (version_ok head)
      then some malformed_hello
      else and_vector (tls_vector one_byte rest) check_session

  unfoldable pub check_client_hello : Bytes → Option HelloError
  unfolding check_version
  check_client_hello body = and_vector (split_at 34 body) check_version
