-- ===== src/Addresses.antt =====
-- app/xray/address_policy.py, app/xray/host_addresses.py, app/subscription/address_context.py: which
-- addresses of a host a user is given. Floating-point numbers and the hash are parameters, gathered
-- here; the texts that are hashed and compared are written out.
pub mod Texts
pub mod Epoch
pub mod Policy
pub mod Hosts
pub mod Context
pub mod Pins
pub mod Archive
pub mod Weights
pub mod Journal
use vpn_panel.Prelude.{ℕ, String, Bool}

-- What the selection uses of `float`, `math.log`, `statistics.median` and `hashlib.blake2b`.
pub record Numerics (F : Type 0) : Type 0 where
  pub zero : F
  pub one : F
  -- 1.0 - 1e-12
  pub near_one : F
  pub of_ℕ : ℕ → F
  -- a / b of integers
  pub ratio : ℕ → ℕ → F
  pub times : F → F → F
  pub minus : F → F → F
  pub div : F → F → F
  -- -math.log(x)
  pub neg_log : F → F
  -- (a + b) / 2
  pub middle : F → F → F
  -- int(x) of a number that is not negative
  pub floor : F → ℕ
  pub le : F → F → Bool
  -- int.from_bytes(hashlib.blake2b(raw.encode(), digest_size=8).digest(), "big")
  pub digest : String → ℕ
