-- ===== src/Nftgate/Token/Laws.antt =====
-- A token that the gate mints verifies, and one that verifies was signed.
use sovereign_vpn.Base.{
  none, ◌↔◌, subst, ◌≡◌, ◌≢◌, refl, sym, ap, ◌∙◌, Option, some, List, [], ◌∷◌, ◌++◌, All, text_eq,
  arith, beq_refl, ℕ, ◌<◌, ◌^◌, ℤ,
}
use mathlib.Core.List.{append_assoc}
use mathlib.Core.Option
use sovereign_vpn.Text.{Text, text, split, join, format_uint, parse_int}
use sovereign_vpn.Text.Laws.{
  split-join, join-split, split-no_sep, parse_int-format_uint, format_uint-no_dot,
}
use sovereign_vpn.Clock.{Time, unix, to_unix}
use sovereign_vpn.Nftgate.Token.{
  payload, new_session_token, parse_and_verify_token, verify_parts, read_expiry,
}

-- The base64 alphabet has no dot.
abbrev pub NoDot : Text → Type 0
NoDot = All (λ x. x ≢ b'.')

payload-join :
    (id : Text) (t : Time)
    → payload id t ≡ join b'.' (text "v1" ∷ id ∷ format_uint (to_unix t) ∷ [])
unfolding payload join
payload-join id t = refl

token-join :
    (id e s : Text)
    → join b'.' (text "v1" ∷ id ∷ e ∷ []) ++ (text "." ++ s)
      ≡ join b'.' (text "v1" ∷ id ∷ e ∷ s ∷ [])
unfolding join
token-join id e s = simp append_assoc

module _ (sign : Text → Text) where
  parts-verify :
      (id e : Text)
      → verify_parts sign (text "v1" ∷ id ∷ e ∷ sign (join b'.' (text "v1" ∷ id ∷ e ∷ [])) ∷ [])
        ≡ read_expiry sign id (parse_int e)
  unfolding verify_parts
  parts-verify id e = rw (beq_refl (sign (join b'.' (text "v1" ∷ id ∷ e ∷ []))))

  read_back :
      (id : Text) (n : ℕ)
      → n < 2 ^ 63
      → read_expiry sign id (parse_int (format_uint n)) ≡ some (id, unix (ℤ.pos n))
  unfolding read_expiry
  read_back id n fits = rw (parse_int-format_uint n fits)

  token_of : Text → Time → Text
  token_of id t = payload id t ++ (text "." ++ sign (payload id t))

  parse-token_of :
      (id : Text) (t : Time)
      → NoDot id
      → NoDot (sign (payload id t))
      → to_unix t < 2 ^ 63
      → parse_and_verify_token sign (token_of id t) ≡ some (id, unix (ℤ.pos (to_unix t)))
  unfolding parse_and_verify_token token_of
  parse-token_of id t plain signs fits =
      let e = format_uint (to_unix t) in
      let p = join b'.' (text "v1" ∷ id ∷ e ∷ []) in
      let ws = text "v1" ∷ id ∷ e ∷ sign p ∷ [] in
      let whole : token_of id t ≡ join b'.' ws =
        rw (payload-join id t) (token-join id e (sign p)) in
      let parts : split b'.' (join b'.' ws) ≡ ws =
        split-join b'.' (text "v1") (id ∷ e ∷ sign p ∷ []) (
          omega arith,
          (plain, (format_uint-no_dot (to_unix t), (rw (← payload-join id t) signs, tt))),
        ) in
      ap (λ s. verify_parts sign (split b'.' s)) whole
      ∙ ap (verify_parts sign) parts
      ∙ parts-verify id e
      ∙ read_back id (to_unix t) fits

  -- Parsing a minted token gives back the session's id and its expiry, cut to whole seconds, if
  -- neither the id nor the signature contains a dot and the expiry fits an int64.
  pub parse_and_verify_token-new_session_token :
      (id : Text) (t : Time)
      → NoDot id
      → ((p : Text) → NoDot (sign p))
      → to_unix t < 2 ^ 63
      → Option.map {B = Text × Option (Text × Time)}
          (λ minted. (minted.0, parse_and_verify_token sign minted.1))
          (new_session_token sign (some id) t)
        ≡ some (id, some (id, unix (ℤ.pos (to_unix t))))
  unfolding new_session_token token_of
  parse_and_verify_token-new_session_token id t plain signs fits =
      ap (λ o. some (id, o)) (parse-token_of id t plain (signs (payload id t)) fits)

  pub parse_of_minted :
      (id : Text) (t : Time) (i token : Text)
      → NoDot id
      → ((p : Text) → NoDot (sign p))
      → to_unix t < 2 ^ 63
      → new_session_token sign (some id) t ≡ some (i, token)
      → (i ≡ id) × (parse_and_verify_token sign token ≡ some (id, unix (ℤ.pos (to_unix t))))
  unfolding new_session_token token_of
  parse_of_minted id t i token plain signs fits made =
      let whole : token_of id t ≡ token = ground arith in
      (
        ground arith,
        ap (parse_and_verify_token sign) (sym whole)
            ∙ parse-token_of id t plain (signs (payload id t)) fits,
      )

  read_expiry-eq_some :
      (i : Text) (o : Option ℤ) (id : Text) (t : Time)
      → read_expiry sign i o ≡ some (id, t)
      → (i ≡ id) × (n : ℤ) × (o ≡ some n) × (t ≡ unix n)
  unfolding read_expiry
  read_expiry-eq_some i none id t h = absurd (ground (arith))
  read_expiry-eq_some i (some n) id t h = (ground (arith), n, refl, ground (arith))

  verify_parts-eq_some :
      (ps : List Text) (id : Text) (t : Time)
      → verify_parts sign ps ≡ some (id, t)
      → (e : Text) × (n : ℤ) × (parse_int e ≡ some n)
        × (t ≡ unix n)
        × (ps ≡ text "v1" ∷ id ∷ e ∷ sign (join b'.' (text "v1" ∷ id ∷ e ∷ [])) ∷ [])
  unfolding verify_parts
  verify_parts-eq_some [] id t h = absurd (ground (arith))
  verify_parts-eq_some (_ ∷ []) id t h = absurd (ground (arith))
  verify_parts-eq_some (_ ∷ _ ∷ []) id t h = absurd (ground (arith))
  verify_parts-eq_some (_ ∷ _ ∷ _ ∷ []) id t h = absurd (ground (arith))
  verify_parts-eq_some (v ∷ i ∷ e ∷ s ∷ []) id t h =
      let (same, n, parsed, at) = read_expiry-eq_some i (parse_int e) id t (ground (arith)) in
      (
        e,
        n,
        parsed,
        at,
        ground (
          arith,
          same,
          text_eq.beq_iff v (text "v1"),
          text_eq.beq_iff (sign (join b'.' (v ∷ i ∷ e ∷ []))) s,
        ),
      )
  verify_parts-eq_some (_ ∷ _ ∷ _ ∷ _ ∷ _ ∷ _) id t h = absurd (ground (arith))

  -- What a token says that stands for an id until a time: it is "v1.ID.EXPIRY.SIGNATURE" with no
  -- other dot, its expiry is the time in decimal, and its signature is that of the rest.
  pub record IsSigned (token id : Text) (t : Time) : Type 0 where
    pub expiry : Text
    pub seconds : ℤ
    pub expiry_read : parse_int expiry ≡ some seconds
    pub until : t ≡ unix seconds
    pub id_plain : NoDot id
    pub expiry_plain : NoDot expiry
    pub signature_plain : NoDot (sign (text "v1." ++ (id ++ (text "." ++ expiry))))
    pub whole :
        token
        ≡ (text "v1." ++ (id ++ (text "." ++ expiry)))
          ++ (text "." ++ sign (text "v1." ++ (id ++ (text "." ++ expiry))))

  -- A token verifies, with an id and an expiry, exactly if it is "v1.ID.EXPIRY.SIGNATURE" with this
  -- id, where no part has a dot, the expiry text is a decimal int64 and this expiry is its Unix time,
  -- and the signature is the key's own for the three parts before it.
  pub parse_and_verify_token-eq_some :
      (token id : Text) (t : Time)
      → (parse_and_verify_token sign token ≡ some (id, t)) ↔ IsSigned token id t
  unfolding parse_and_verify_token join
  parse_and_verify_token-eq_some token id t = (there, back)
    where
      there : parse_and_verify_token sign token ≡ some (id, t) → IsSigned token id t
      there h =
          let (e, n, parsed, at, eq) = verify_parts-eq_some (split b'.' token) id t h in
          let p = join b'.' (text "v1" ∷ id ∷ e ∷ []) in
          let plain = subst (λ ps. All NoDot ps) eq (split-no_sep b'.' token) in
          record {
            expiry = e;
            seconds = n;
            expiry_read = parsed;
            until = at;
            id_plain = plain.1.0;
            expiry_plain = plain.1.1.0;
            signature_plain = plain.1.1.1.0;
            whole =
                sym (join-split b'.' token) ∙ ap (join b'.') eq ∙ sym (token-join id e (sign p));
          }

      back : IsSigned token id t → parse_and_verify_token sign token ≡ some (id, t)
      back k =
          let e = k.expiry in
          let p = join b'.' (text "v1" ∷ id ∷ e ∷ []) in
          let ws = text "v1" ∷ id ∷ e ∷ sign p ∷ [] in
          let parts : split b'.' (join b'.' ws) ≡ ws =
            split-join b'.' (text "v1") (id ∷ e ∷ sign p ∷ [])
              (omega arith, (k.id_plain, (k.expiry_plain, (k.signature_plain, tt)))) in
          ap (λ s. verify_parts sign (split b'.' s)) (k.whole ∙ token-join id e (sign p))
          ∙ ap (verify_parts sign) parts
          ∙ parts-verify id e
          ∙ ap (read_expiry sign id) k.expiry_read
          ∙ (rw k.until refl)
