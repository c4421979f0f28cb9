-- ===== src/Egress/Hello/Body.antt =====
-- The whole body of a ClientHello that the gateway lets through (internal/egress/clienthello.go).
use octomus_agent.Base.{
  ◌%◌, ◌≤◌, Bool, true, false, [], ◌++◌, none, length, Bytes, IsBytes, IsBytes-append, split_at,
  split_at_inversion, Text, text_eq, nat_eq, ◌==◌, ◌≡◌, ap, subst, ◌∙◌, arith,
}
use octomus_agent.Egress.Hello.{
  one_byte, two_bytes, tls_vector, and_vector, version_ok, check_extensions, check_last,
  check_compression, check_ciphers, check_session, check_version, check_client_hello,
}
use octomus_agent.Egress.Hello.Named.{Admitted, check_extensions-Admitted}
use octomus_agent.Egress.Hello.Vectors.{vector, taken, alone, and_vector_inversion}

-- The body of a hello that names the host: a version and the random bytes, a session, whole
-- ciphers, a compression, and extensions that admit.
pub record Named (lower : Text → Text) (is_address : Text → Bool) (host : Text) (body : Bytes)
    : Type 0 where
  pub head : Bytes
  pub session : Bytes
  pub ciphers : Bytes
  pub compression : Bytes
  pub extensions : Bytes
  pub layout :
      body
      ≡ head
        ++ (vector one_byte session
            ++ (vector two_bytes ciphers
                ++ (vector one_byte compression ++ vector two_bytes extensions)))
  pub head_length : length head ≡ 34
  pub version : version_ok head ≡ true
  pub session_length : length session ≤ 32
  pub whole_ciphers : length ciphers % 2 ≡ 0
  pub some_cipher : 2 ≤ length ciphers
  pub some_compression : (compression == []) ≡ false
  pub admitted : Admitted lower is_address host [] false extensions

module _ (lower : Text → Text) (is_address : Text → Bool) (host : Text) where
  version_part :
      (head rest : Bytes)
      → check_version lower is_address host head rest ≡ none
      → (version_ok head ≡ true)
        × (and_vector (tls_vector one_byte rest) (check_session lower is_address host) ≡ none)
  unfolding check_version
  version_part head rest h = (ground arith, ground arith)

  session_part :
      (session rest : Bytes)
      → check_session lower is_address host session rest ≡ none
      → (length session ≤ 32)
        × (and_vector (tls_vector two_bytes rest) (check_ciphers lower is_address host) ≡ none)
  unfolding check_session
  session_part session rest h = (ground arith, ground arith)

  ciphers_part :
      (ciphers rest : Bytes)
      → check_ciphers lower is_address host ciphers rest ≡ none
      → (2 ≤ length ciphers)
        × (length ciphers % 2 ≡ 0)
        × (and_vector (tls_vector one_byte rest) (check_compression lower is_address host) ≡ none)
  unfolding check_ciphers
  ciphers_part ciphers rest h = (ground arith, ground arith, ground arith)

  compression_part :
      (compression rest : Bytes)
      → check_compression lower is_address host compression rest ≡ none
      → ((compression == []) ≡ false)
        × (and_vector (tls_vector two_bytes rest) (check_last lower is_address host) ≡ none)
  unfolding check_compression
  compression_part compression rest h = (ground arith, ground arith)

  last_part :
      (extensions rest : Bytes)
      → check_last lower is_address host extensions rest ≡ none
      → (rest ≡ [])
        × (check_extensions lower is_address host (length extensions) [] false extensions ≡ none)
  unfolding check_last
  last_part extensions rest h = (ground arith, ground arith)

  -- An accepted ClientHello is laid out as one, repeats no extension, holds no encrypted hello, and
  -- has a server name extension; every server name extension of it holds one name, which is the host.
  pub check_client_hello-Named :
      (body : Bytes)
      → IsBytes body
      → check_client_hello lower is_address host body ≡ none
      → Named lower is_address host body
  unfolding check_client_hello
  check_client_hello-Named body bytes h =
      let (head, r0, found, ok0) =
        and_vector_inversion (split_at 34 body) (check_version lower is_address host) h in
      let (joined0, sized) = split_at_inversion 34 body head r0 found in
      let (_, bytes0) = IsBytes-append head r0 (subst (λ i. IsBytes i) joined0 bytes) in
      let (version, next1) = version_part head r0 ok0 in
      let (session, r1, joined1, _, bytes1, ok1) =
        taken one_byte r0 (check_session lower is_address host) bytes0 next1 in
      let (short, next2) = session_part session r1 ok1 in
      let (ciphers, r2, joined2, _, bytes2, ok2) =
        taken two_bytes r1 (check_ciphers lower is_address host) bytes1 next2 in
      let (some_cipher, whole, next3) = ciphers_part ciphers r2 ok2 in
      let (compression, r3, joined3, _, bytes3, ok3) =
        taken one_byte r2 (check_compression lower is_address host) bytes2 next3 in
      let (compressed, next4) = compression_part compression r3 ok3 in
      let (extensions, r4, joined4, bytes_e, _, ok4) =
        taken two_bytes r3 (check_last lower is_address host) bytes3 next4 in
      let (empty, ok5) = last_part extensions r4 ok4 in
      record {
        head = head;
        session = session;
        ciphers = ciphers;
        compression = compression;
        extensions = extensions;
        layout =
            joined0
            ∙ ap (λ r. head ++ r)
                (joined1
                  ∙ ap (λ r. vector one_byte session ++ r)
                      (joined2
                        ∙ ap (λ r. vector two_bytes ciphers ++ r)
                            (joined3
                              ∙ ap (λ r. vector one_byte compression ++ r)
                                  (alone two_bytes r3 extensions r4 joined4 empty))));
        head_length = sized;
        version = version;
        session_length = short;
        whole_ciphers = whole;
        some_cipher = some_cipher;
        some_compression = compressed;
        admitted =
            check_extensions-Admitted lower is_address host (length extensions) [] false extensions
              bytes_e ok5;
      }
