-- ===== src/Verbs/Narrowing.antt =====
-- Degradation of verbs in a checked class (crates/portos-rm/src/verbs.rs): however often a verb is
-- degraded, it is registered and not more severe.
use portos.Base.{ℕ, ◌≡◌, subst, false, some, String, string_discrete, arith}
use portos.Base.Maps.{get}
use portos.Protocol.{ok}
use portos.Verbs.{VerbEntry, severity, more_severe}
use portos.Verbs.Class.{ClassDeclarationDraft, Entries, CheckedClass}
use portos.Verbs.Checks.{check}
use portos.Verbs.Coherence.{check-IsCoherent}

-- A verb, and what it is after some degradations.
pub data Degrades (entries : Entries) : VerbEntry → VerbEntry → Type 0 where
  stays : {e : VerbEntry} → Degrades entries e e
  degrades :
      {e f g : VerbEntry} (d : String)
      → e.degrade ≡ some d
      → get string_discrete d entries ≡ some f
      → Degrades entries f g
      → Degrades entries e g

more_severe_refl : (a : ℕ × ℕ × ℕ) → more_severe a a ≡ false
unfolding more_severe
more_severe_refl (x, y, z) = ground arith

more_severe_trans :
    (a b c : ℕ × ℕ × ℕ)
    → more_severe b a ≡ false
    → more_severe c b ≡ false
    → more_severe c a ≡ false
unfolding more_severe
more_severe_trans (x, y, z) (x', y', z') (x'', y'', z'') h k = ground arith

-- In a class that passes the check, what a registered verb becomes by any number of degradations is
-- registered too, and is not more severe than the verb.
pub degraded_is_not_more_severe :
    (d : ClassDeclarationDraft) (c : CheckedClass) (v : String) (e f : VerbEntry)
    → check d ≡ ok c
    → get string_discrete v c.entries ≡ some e
    → Degrades c.entries e f
    → (w : String) × (get string_discrete w c.entries ≡ some f)
      × (more_severe (severity f) (severity e) ≡ false)
degraded_is_not_more_severe d c v e f h g stays = (v, g, more_severe_refl (severity e))
degraded_is_not_more_severe d c v e f h g (degrades {f = m} x p q r) =
    let (t, q1, n1) = (check-IsCoherent d c v e h g).linked.narrows x p in
    let (w, g2, n2) = degraded_is_not_more_severe d c x m f h q r in
    let same : t ≡ m = cc in
    (
      w,
      g2,
      more_severe_trans (severity e) (severity m) (severity f)
          (subst (λ (y : VerbEntry). more_severe (severity y) (severity e) ≡ false) same n1) n2,
    )
