-- ===== src/Examples/Values.antt =====
-- Leases and cleanup targets at concrete values.
use portos.Base.{◌≡◌, refl, true, none, [], ◌∷◌}
use portos.Errors.{ok}
use portos.Time.{Lease, LeaseRequest, resolve}
use portos.Cleanup.{CleanupTarget, Transport}
use portos.Auth.{compose, auth_valid}
use portos.Ra.Counted.{Count, count_ra}
use portos.Frag.{Frag, AlgebraTag, fits}
use portos.Frag.Fits.{fits-into}
use portos.Examples.Twelfths.{twelfths}

bound_lease : resolve LeaseRequest.use_class_default none true 5 ≡ ok Lease.parent_bound
unfolding resolve
bound_lease = refl

abbrev web_port : CleanupTarget
web_port = CleanupTarget.port (record { transport = Transport.tcp; port = 80 })

fits-into_example :
    fits twelfths (Frag.count (Count.value 6)) (Frag.count (Count.value 2) ∷ [])
    ≡ ok (auth_valid count_ra (Count.value 6) (compose count_ra (Count.value 2 ∷ [])))
fits-into_example = fits-into twelfths AlgebraTag.counted (Count.value 6) (Count.value 2 ∷ [])
