-- ===== src/Operators/Handlers/Authorized.antt =====
-- An enrollment is created only for an operator who signed for it.
use sovereign_vpn.Base.{
  ℕ, ◌≡◌, refl, inl, inr, true, ◌||◌, Option, none, some, nat_eq, text_eq, arith, Bool-cases,
  Result, ok, err,
}
use sovereign_vpn.Text.{Text, is_empty}
use sovereign_vpn.Base.{Result-cases}
use sovereign_vpn.Strings.{equal_fold}
use sovereign_vpn.External.{Address, Ethereum, TimeText}
use sovereign_vpn.Map.{lookup}
use sovereign_vpn.Siwe.Service
use sovereign_vpn.Siwe.Service.{VerifyError, verify}
use sovereign_vpn.Siwe.Service.SignIn.{SignedIn, verify-SignedIn}
use sovereign_vpn.Operators.Fields.{Enrollment, normalize_operator}
use sovereign_vpn.Operators.Store
use sovereign_vpn.Operators.Store.{Store, CreateError}
use sovereign_vpn.Operators.Store.Creation.{create-ok}
use sovereign_vpn.Operators.Handlers.{
  State, CreateRequest, CreateInputs, answered, create_reply, with_store, create_signed,
  create_verified, create_for, handle_create,
}

-- What stands behind a created enrollment.
pub record IsAuthorized (eth : Ethereum) (times : TimeText) (s s' : State) (req : CreateRequest)
    (inputs : CreateInputs) (e : Enrollment) : Type 0 where
  pub siwe : Service.Service
  pub siwe_after : Service.Service
  pub signer : Address
  pub operator : Text
  pub configured : s.siwe ≡ some siwe
  pub signed :
      SignedIn eth times siwe siwe_after req.message req.signature inputs.verified_at
        inputs.consumed_at signer
  pub named : normalize_operator eth req.operator ≡ ok operator
  pub signer_named : equal_fold (eth.address_hex signer) operator ≡ true
  pub enrolled : normalize_operator eth operator ≡ ok e.operator
  pub stored : lookup e.token s'.enrollments.records ≡ some e
  pub service_kept : s'.siwe ≡ some siwe_after

module _ (eth : Ethereum) (times : TimeText) where
  create_reply-answered :
      (r : Store × Result CreateError Enrollment) (n : ℕ) (e : Enrollment)
      → (create_reply r).1 ≡ answered n e
      → (r ≡ ((create_reply r).0, ok e)) × (n ≡ 201)
  unfolding create_reply
  create_reply-answered (st, ok d) n e h = ground (arith)
  create_reply-answered (st, err (CreateError.invalid v)) n e h = absurd (ground (arith))
  create_reply-answered (st, err CreateError.no_token) n e h = absurd (ground (arith))

  create_signed-answered :
      (s : State) (req : CreateRequest) (inputs : CreateInputs) (operator : Text)
      (siwe : Service.Service) (v : Service.Service × Result VerifyError Address) (n : ℕ)
      (e : Enrollment)
      → s.siwe ≡ some siwe
      → normalize_operator eth req.operator ≡ ok operator
      → verify eth times siwe req.message req.signature inputs.verified_at inputs.consumed_at ≡ v
      → (create_signed eth s req inputs operator v).1 ≡ answered n e
      → IsAuthorized eth times s (create_signed eth s req inputs operator v).0 req inputs e
        × (n ≡ 201)
  unfolding create_signed with_store
  create_signed-answered s req inputs operator siwe (siwe', err x) n e c o k h =
      absurd (ground (arith))
  create_signed-answered s req inputs operator siwe (siwe', ok address) n e c o k h =
      elim (Bool-cases (equal_fold (eth.address_hex address) operator)) [
        | inr q ↦ absurd (ground (arith))
        | inl q ↦
            let made =
              Store.create eth s.enrollments operator req.region inputs.drawn inputs.created_at in
            let shown = create_reply-answered made n e (ground (arith)) in
            let created =
              create-ok eth s.enrollments (create_reply made).0 operator req.region inputs.drawn
                inputs.created_at e shown.0 in
            rw q (
              record {
                siwe = siwe;
                siwe_after = siwe';
                signer = address;
                operator = operator;
                configured = c;
                signed =
                    verify-SignedIn eth times siwe siwe' req.message req.signature
                      inputs.verified_at inputs.consumed_at address k;
                named = o;
                signer_named = q;
                enrolled = created.enrolled;
                stored = created.stored;
                service_kept = refl;
              },
              shown.1,
            )
      ]

  create_verified-answered :
      (s : State) (req : CreateRequest) (inputs : CreateInputs) (operator : Text)
      (o : Option Service.Service) (n : ℕ) (e : Enrollment)
      → s.siwe ≡ o
      → normalize_operator eth req.operator ≡ ok operator
      → (create_verified eth times s req inputs operator o).1 ≡ answered n e
      → IsAuthorized eth times s (create_verified eth times s req inputs operator o).0 req inputs e
        × (n ≡ 201)
  unfolding create_verified
  create_verified-answered s req inputs operator none n e c k h = absurd (ground (arith))
  create_verified-answered s req inputs operator (some siwe) n e c k h =
      create_signed-answered s req inputs operator siwe _ n e c k refl h

  -- An enrollment is answered only with status 201 and to a request whose message a wallet signed
  -- in by all the checks of a sign-in; the wallet's address is the request's operator, of which the
  -- enrollment's is the normal form, and the enrollment is stored under its token.
  pub handle_create-IsAuthorized :
      (s : State) (req : CreateRequest) (inputs : CreateInputs) (n : ℕ) (e : Enrollment)
      → (handle_create eth times s (some req) inputs).1 ≡ answered n e
      → IsAuthorized eth times s (handle_create eth times s (some req) inputs).0 req inputs e
        × (n ≡ 201)
  unfolding handle_create create_for
  handle_create-IsAuthorized s req inputs n e h =
      elim (Result-cases (normalize_operator eth req.operator)) [
        | inl (v, k) ↦ absurd (ground (arith))
        | inr (o, k) ↦ elim (Bool-cases (is_empty req.message || is_empty req.signature)) [
          | inl q ↦ absurd (ground (arith))
          | inr q ↦
              rw (k, q) (create_verified-answered s req inputs o s.siwe n e refl k (ground (arith)))
        ]
      ]
