-- ===== src/Ra/Names.antt =====
-- `GSet`, sets of names under union (crates/portos-rm/src/ra.rs).
use portos.Base.{◌≡◌, refl, sym, String, Bool, true, Option, some, List, arith}
use portos.Base.Sets.{
  StringSet, of_list, union, is_subset, is_subset_iff, union_comm, union_assoc, union_self,
  union_of_Below, Below-union_left, Below-antisym, contains,
}
use mathlib.Core.Path.{subst}
use portos.Ra.{Ra, IsRa}

abbrev pub GSet : Type 0
GSet = StringSet

-- `GSet::of`.
abbrev pub of : List String → GSet
of = of_list

-- `PartialEq` of two sets: each is a subset of the other.
both_below : (s t : GSet) (b c : Bool) → is_subset s t ≡ b → is_subset t s ≡ c → Dec (s ≡ t)
both_below s t true true p q =
    yes (Below-antisym s t ((is_subset_iff s t).0 p) ((is_subset_iff t s).0 q))
both_below s t true Bool.false p q =
    no λ e. cc (q, (is_subset_iff t s).1 λ a h. subst (λ u. contains a u ≡ true) (sym e) h)
both_below s t Bool.false c p q =
    no λ e. cc (p, (is_subset_iff s t).1 λ a h. subst (λ u. contains a u ≡ true) e h)

pub GSet-discrete : Discrete GSet
GSet-discrete s t = both_below s t (is_subset s t) (is_subset t s) refl refl

abbrev pub op : GSet → GSet → GSet
op = union

abbrev pub valid : GSet → Bool
valid _ = true

abbrev pub pcore : GSet → Option GSet
pcore s = some s

abbrev pub included_in : GSet → GSet → Bool
included_in = is_subset

abbrev pub gset_ra : Ra GSet
gset_ra = record {
  op = op;
  valid = valid;
  pcore = pcore;
  included_in = included_in;
  same = GSet-discrete;
}

abbrev pub Any : GSet → Type 0
Any _ = Unit

pub gset-IsRa : IsRa gset_ra Any
gset-IsRa = record {
  closed = λ a b p q. tt;
  assoc = λ a b c p q r. union_assoc a b c;
  comm = λ a b p q. union_comm a b;
  valid_op_l = λ a b p q h. refl;
  core_id = λ a c p h. let e : a ≡ c = ground arith in rw (← e) (union_self a);
  core_idem = λ a c p h. refl;
  core_mono = λ a b c p q h e. let s : a ≡ c = ground arith in (b, refl, rw (← s) h);
  incl = λ a b p q h. (b, tt, sym (union_of_Below a b ((is_subset_iff a b).0 h)));
  incl_op = λ a c p q. (is_subset_iff a (union a c)).1 (Below-union_left a c);
}
