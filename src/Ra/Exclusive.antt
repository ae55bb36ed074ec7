-- ===== src/Ra/Exclusive.antt =====
-- `Ex`, the exclusive token (crates/portos-rm/src/ra.rs): composing two claims is invalid.
use portos.Base.{refl, Bool, true, false, Option, none, some, arith}
use portos.Ra.{Ra, IsRa}

pub data Ex : Type 0 where
  token bot : Ex

pub Ex-discrete : Discrete Ex
Ex-discrete = hlevel

abbrev pub op : Ex → Ex → Ex
op _ _ = Ex.bot

abbrev pub valid : Ex → Bool
valid Ex.token = true
valid Ex.bot = false

abbrev pub pcore : Ex → Option Ex
pcore Ex.token = none
pcore Ex.bot = some Ex.bot

abbrev pub included_in : Ex → Ex → Bool
included_in _ Ex.bot = true
included_in _ Ex.token = false

abbrev pub ex_ra : Ra Ex
ex_ra = record {
  op = op;
  valid = valid;
  pcore = pcore;
  included_in = included_in;
  same = Ex-discrete;
}

abbrev pub Any : Ex → Type 0
Any _ = Unit

pub ex-IsRa : IsRa ex_ra Any
ex-IsRa = record {
  closed = λ a b p q. tt;
  assoc = λ a b c p q r. refl;
  comm = λ a b p q. refl;
  valid_op_l = λ a b p q h. cc;
  core_id = λ a c p h. ground arith;
  core_idem = λ a c p h. ground arith;
  core_mono = λ a b c p q h e. (Ex.bot, ground arith, ground arith);
  incl = λ a b p q h. (Ex.bot, tt, ground arith);
  incl_op = λ a c p q. refl;
}
