-- ===== src/Identity.antt =====
-- Domain names, holding ids and handles (crates/portos-rm/src/identity.rs). The name types all
-- wrap a `String`; here they are synonyms, so that the model does not keep them apart by type.
use portos.Base.{ℕ, ◌+◌, ◌^◌, String, string_discrete, ℕ_discrete, ltb, if◌then◌else◌}
use portos.Errors.{Result, ok, err, LedgerError}

abbrev pub SubjectId : Type 0
SubjectId = String

abbrev pub ClassId : Type 0
ClassId = String

abbrev pub VerbId : Type 0
VerbId = String

abbrev pub InstanceId : Type 0
InstanceId = String

abbrev pub Generation : Type 0
Generation = String

abbrev pub EffectClass : Type 0
EffectClass = String

abbrev pub AccountId : Type 0
AccountId = String

-- `i64::MAX + 1`, the first number that SQLite's INTEGER cannot hold.
abbrev pub i64_limit : ℕ
i64_limit = 2 ^ 63

abbrev pub HoldingId : Type 0
HoldingId = ℕ

-- `HoldingId::try_from(u64)`.
unfoldable pub holding_id : ℕ → Result HoldingId
holding_id value = if ltb value i64_limit then ok value else err LedgerError.out_of_range

-- `u64::checked_add(1)`, as the ledger uses it for the next id.
unfoldable pub next_of : ℕ → Result ℕ
next_of n = if ltb (n + 1) (2 ^ 64) then ok (n + 1) else err LedgerError.out_of_range

-- A reference, not a proof that the holding lives.
pub record HoldingHandle : Type 0 where
  pub id : HoldingId
  pub generation : Generation

pub record ResourceKey : Type 0 where
  pub cls : ClassId
  pub instance_id : InstanceId

-- `PoolId` wraps a key.
abbrev pub PoolId : Type 0
PoolId = ResourceKey

pub record SpendRequest : Type 0 where
  pub account : AccountId
  pub effect : EffectClass
  pub amount : ℕ

pub HoldingHandle-discrete : Discrete HoldingHandle
HoldingHandle-discrete = hlevel (ℕ_discrete, string_discrete)

unfoldable pub ResourceKey-discrete : Discrete ResourceKey
ResourceKey-discrete = hlevel string_discrete
