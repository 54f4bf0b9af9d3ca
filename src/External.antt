-- ===== src/External.antt =====
-- What the gateway calls of go-ethereum and of the package `time`, as parameters of the model.
use sovereign_vpn.Base.{ℕ, ◌/◌, ◌*◌, ◌≡◌, ◌≢◌, Bool, Option, some, All}
use sovereign_vpn.Text.{Text}
use sovereign_vpn.Clock.{Time, second}

-- `common.Address` as a number, as in the session store.
abbrev pub Address : Type 0
Address = ℕ

pub record Ethereum : Type 0 where
  -- `hexutil.Decode`
  pub decode_hex : Text → Option Text
  -- `crypto.Keccak256`
  pub keccak256 : Text → Text
  -- `crypto.SigToPub` of a hash and a signature, and `PubkeyToAddress` of its key
  pub recover : Text → Text → Option Address
  -- `Address.Hex`, `common.IsHexAddress` and `common.HexToAddress`
  pub address_hex : Address → Text
  pub is_hex_address : Text → Bool
  pub hex_to_address : Text → Address

-- `Time.Format` and `time.Parse` by RFC 3339
pub record TimeText : Type 0 where
  pub format : Time → Text
  pub parse : Text → Option Time

-- `Parse` reads what `Format` writes, to the second, and `Format` writes one line.
pub record IsTimeText (c : TimeText) : Type 0 where
  pub read_back : (t : Time) → c.parse (c.format t) ≡ some (t / second * second)
  pub one_line : (t : Time) → All (λ x. x ≢ b'\n') (c.format t)
