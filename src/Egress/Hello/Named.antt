-- ===== src/Egress/Hello/Named.antt =====
-- The layout of a ClientHello that the gateway lets through (internal/egress/clienthello.go).
use octomus_agent.Base.{
  ℕ, zero, suc, Bool, true, false, ◌||◌, List, [], ◌∷◌, ◌++◌, Option, none, some, contains, last?,
  Bytes, IsBytes, u16, put_u16, Text, text_eq, nat_eq, option_eq, ◌==◌, Distinct, no_entries,
  new_entry, Any, here, there, ◌≡◌, refl, sym, ap, subst, ◌∙◌, inl, inr, arith, Bool-cases, ==→≡,
  ==-refl,
}
use octomus_agent.Sandbox.Wire.Hosts.{Host, host_name, no_host, normalize_host}
use octomus_agent.Egress.Hello.{
  HelloError, two_bytes, is_ascii, mismatch, check_name, check_names, check_server_name, check_kind,
  check_extensions,
}
use octomus_agent.Egress.Hello.Vectors.{
  vector, u16-put, taken, alone, encode_extensions, kinds, absent, or_true, or_false,
}

module _ (lower : Text → Text) (is_address : Text → Bool) (host : Text) where
  -- One plain name, in ASCII and without a dot at its end, that is the host.
  pub record IsServerName (value : Bytes) : Type 0 where
    pub name : Bytes
    pub layout : value ≡ vector two_bytes (0 ∷ vector two_bytes name)
    pub not_empty : (name == []) ≡ false
    pub ascii : is_ascii name ≡ true
    pub no_dot : (last? name == some b'.') ≡ false
    pub same_host : normalize_host lower is_address name ≡ host_name host

  mismatch-none : (o : Host) → mismatch host o ≡ none → o ≡ host_name host
  mismatch-none (no_host e) h = absurd (cc)
  mismatch-none (host_name n) h = let same = ==→≡ n host (ground arith) in ap host_name same

  -- What check_name accepts.
  check_name_inversion :
      (name rest : Bytes)
      → check_name lower is_address host name rest ≡ none
      → (rest ≡ [])
        × ((name == []) ≡ false)
        × (is_ascii name ≡ true)
        × ((last? name == some b'.') ≡ false)
        × (normalize_host lower is_address name ≡ host_name host)
  unfolding check_name
  check_name_inversion name rest h = (
    ground arith,
    ground arith,
    ground arith,
    ground arith,
    mismatch-none (normalize_host lower is_address name) (ground arith),
  )

  check_names_inversion :
      (names rest : Bytes)
      → IsBytes names
      → check_names lower is_address host names rest ≡ none
      → (rest ≡ [])
        × ((name : Bytes) × (names ≡ 0 ∷ vector two_bytes name)
            × (check_name lower is_address host name [] ≡ none))
  unfolding check_names
  check_names_inversion [] rest bytes h = absurd (cc)
  check_names_inversion (t ∷ names) rest (pt, bytes) h =
      let (name, after, joined, pv, pr, ok) =
        taken two_bytes names (check_name lower is_address host) bytes (ground arith) in
      let accepted = check_name_inversion name after ok in
      let empty = accepted.0 in
      let zeroed : t ≡ 0 = ground arith in
      (
        ground arith,
        (
          name,
          ap (λ k. k ∷ names) zeroed
              ∙ ap (λ n. 0 ∷ n) (alone two_bytes names name after joined empty),
          subst (λ r. check_name lower is_address host name r ≡ none) empty ok,
        ),
      )

  check_server_name-IsServerName :
      (value : Bytes)
      → IsBytes value
      → check_server_name lower is_address host value ≡ none
      → IsServerName value
  unfolding check_server_name
  check_server_name-IsServerName value bytes h =
      let (names, rest, joined, pv, pr, ok) =
        taken two_bytes value (check_names lower is_address host) bytes h in
      let (empty, (name, shape, named)) = check_names_inversion names rest pv ok in
      let (_, not_empty, ascii, no_dot, same_host) = check_name_inversion name [] named in
      record {
        name = name;
        layout = alone two_bytes value names rest joined empty ∙ ap (λ n. vector two_bytes n) shape;
        not_empty = not_empty;
        ascii = ascii;
        no_dot = no_dot;
        same_host = same_host;
      }

  -- What the extensions are once the loop accepts them, with the kinds before them and whether one of
  -- those is a server name.
  pub record Admitted (seen : List ℕ) (found : Bool) (input : Bytes) : Type 0 where
    pub extensions : List (ℕ × Bytes)
    pub layout : input ≡ encode_extensions extensions
    pub distinct : Distinct (kinds extensions)
    pub fresh : (kind : ℕ) → contains (kinds extensions) kind ≡ true → contains seen kind ≡ false
    pub plain : contains (kinds extensions) 0xfe0d ≡ false
    pub named : (found || contains (kinds extensions) 0) ≡ true
    pub names : (value : Bytes) → Any (λ x. x ≡ (0, value)) extensions → IsServerName value

  -- One accepted round of the loop.
  record Round (rounds : ℕ) (seen : List ℕ) (found : Bool) (input : Bytes) : Type 0 where
    kind : ℕ
    value : Bytes
    after : Bytes
    now : Bool
    layout : input ≡ put_u16 kind ++ (vector two_bytes value ++ after)
    new : contains seen kind ≡ false
    plain : (kind == 0xfe0d) ≡ false
    is_named : now ≡ (found || kind == 0)
    names : kind ≡ 0 → IsServerName value
    bytes : IsBytes after
    rest_ok : check_extensions lower is_address host rounds (kind ∷ seen) now after ≡ none

  check_kind_inversion :
      (kind : ℕ) (value : Bytes) (found : Bool) (next : Bool → Option HelloError)
      → IsBytes value
      → check_kind lower is_address host kind value found next ≡ none
      → ((kind == 0xfe0d) ≡ false)
        × (kind ≡ 0 → IsServerName value)
        × (next (found || kind == 0) ≡ none)
  check_kind_inversion kind value found next bytes h = elim (Bool-cases (kind == 0)) [
    | inl e ↦
        let zeroed = ==→≡ kind 0 e in
        let ok : check_server_name lower is_address host value ≡ none = ground arith in
        (
          ground arith,
          λ z. check_server_name-IsServerName value bytes ok,
          subst (λ b. next b ≡ none) (or_true found (kind == 0) e) (ground arith),
        )
    | inr e ↦ (
      ground arith,
      λ z. absurd (ground arith),
      subst (λ b. next b ≡ none) (or_false found (kind == 0) e) (ground arith),
    )
  ]

  round :
      (rounds : ℕ) (seen : List ℕ) (found : Bool) (a b c d : ℕ) (input : Bytes)
      → IsBytes (a ∷ b ∷ c ∷ d ∷ input)
      → check_extensions lower is_address host (suc rounds) seen found (a ∷ b ∷ c ∷ d ∷ input)
        ≡ none
      → Round rounds seen found (a ∷ b ∷ c ∷ d ∷ input)
  unfolding check_extensions
  round rounds seen found a b c d input (pa, (pb, bytes)) h =
      let kind = u16 a b in
      let (value, after, joined, pv, pr, ok) = taken two_bytes (c ∷ d ∷ input) _ bytes h in
      let (plain, names, rest_ok) =
        check_kind_inversion kind value found
          (λ now. check_extensions lower is_address host rounds (kind ∷ seen) now after) pv
          (ground arith) in
      let start = u16-put a b kind pa pb refl in
      record {
        kind = kind;
        value = value;
        after = after;
        now = found || kind == 0;
        layout =
            ap (λ r. a ∷ b ∷ r) joined
            ∙ ap (λ s. s ++ (vector two_bytes value ++ after)) (sym start);
        new = ground arith;
        plain = plain;
        is_named = refl;
        names = names;
        bytes = pr;
        rest_ok = rest_ok;
      }

  Admitted-cons :
      (rounds : ℕ) (seen : List ℕ) (found : Bool) (input : Bytes)
      (r : Round rounds seen found input)
      → Admitted (r.kind ∷ seen) r.now r.after
      → Admitted seen found input
  Admitted-cons rounds seen found input r rest = record {
    extensions = (r.kind, r.value) ∷ rest.extensions;
    layout = r.layout ∙ ap (λ e. put_u16 r.kind ++ (vector two_bytes r.value ++ e)) rest.layout;
    distinct =
        new_entry
          (absent (kinds rest.extensions) r.kind
            (λ m. let f = rest.fresh r.kind m in let same = ==-refl r.kind in ground arith))
          rest.distinct;
    fresh = λ k m. elim (Bool-cases (r.kind == k)) [
      | inl e ↦ subst (λ y. contains seen y ≡ false) (==→≡ r.kind k e) r.new
      | inr e ↦ let f = rest.fresh k (ground arith) in ground arith
    ];
    plain = let p = rest.plain in let q = r.plain in ground arith;
    named = let p = rest.named in let q = r.is_named in ground arith;
    names = λ value o. name_of value o;
  }
    where
      name_of :
          (value : Bytes)
          → Any (λ x. x ≡ (0, value)) ((r.kind, r.value) ∷ rest.extensions)
          → IsServerName value
      name_of value (here e) =
          subst (λ v. IsServerName v) (ap (λ x. x.1) e) (r.names (ap (λ x. x.0) e))
      name_of value (there o) = rest.names value o

  Admitted-nil : (seen : List ℕ) (found : Bool) → found ≡ true → Admitted seen found []
  Admitted-nil seen found is_found = record {
    extensions = [];
    layout = refl;
    distinct = no_entries;
    fresh = λ k m. absurd (cc);
    plain = refl;
    named = ground arith;
    names = λ value o. elim o [ ];
  }

  pub check_extensions-Admitted :
      (rounds : ℕ) (seen : List ℕ) (found : Bool) (input : Bytes)
      → IsBytes input
      → check_extensions lower is_address host rounds seen found input ≡ none
      → Admitted seen found input
  unfolding check_extensions
  check_extensions-Admitted rounds seen found [] bytes h = Admitted-nil seen found (ground arith)
  check_extensions-Admitted zero seen found (a ∷ input) bytes h = absurd (cc)
  check_extensions-Admitted (suc rounds) seen found (a ∷ b ∷ c ∷ d ∷ input) bytes h =
      let r = round rounds seen found a b c d input bytes h in
      Admitted-cons rounds seen found _ r
        (check_extensions-Admitted rounds (r.kind ∷ seen) r.now r.after r.bytes r.rest_ok)
  check_extensions-Admitted (suc rounds) seen found (a ∷ []) bytes h = absurd (cc)
  check_extensions-Admitted (suc rounds) seen found (a ∷ b ∷ []) bytes h = absurd (cc)
  check_extensions-Admitted (suc rounds) seen found (a ∷ b ∷ c ∷ []) bytes h = absurd (cc)
