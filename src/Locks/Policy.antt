-- ===== src/Locks/Policy.antt =====
-- boost/stm/detail/latm_general_impl.hpp: the choice of the kind of protection.
use tboost_stm.Prelude.{Bool, true, false}
use tboost_stm.System.{
  System, LatmType, e_full_latm_protection, e_tm_conflicting_lock_latm_protection,
  e_tx_conflicting_lock_latm_protection,
}
use tboost_stm.Locks.General.{set_latm}

abbrev pub is_full : LatmType → Bool
is_full e_full_latm_protection = true
is_full e_tm_conflicting_lock_latm_protection = false
is_full e_tx_conflicting_lock_latm_protection = false

abbrev pub is_tm : LatmType → Bool
is_tm e_full_latm_protection = false
is_tm e_tm_conflicting_lock_latm_protection = true
is_tm e_tx_conflicting_lock_latm_protection = false

abbrev pub is_tx : LatmType → Bool
is_tx e_full_latm_protection = false
is_tx e_tm_conflicting_lock_latm_protection = false
is_tx e_tx_conflicting_lock_latm_protection = true

module _ {V : Type 0} where
  unfoldable pub doing_full_lock_protection : System V → Bool
  doing_full_lock_protection s = is_full s.latm.latm_type

  unfoldable pub do_full_lock_protection : System V → System V
  do_full_lock_protection s = set_latm s (record s.latm { latm_type = e_full_latm_protection })

  unfoldable pub doing_tm_lock_protection : System V → Bool
  doing_tm_lock_protection s = is_tm s.latm.latm_type

  unfoldable pub do_tm_lock_protection : System V → System V
  do_tm_lock_protection s =
      set_latm s (record s.latm { latm_type = e_tm_conflicting_lock_latm_protection })

  unfoldable pub doing_tx_lock_protection : System V → Bool
  doing_tx_lock_protection s = is_tx s.latm.latm_type

  unfoldable pub do_tx_lock_protection : System V → System V
  do_tx_lock_protection s =
      set_latm s (record s.latm { latm_type = e_tx_conflicting_lock_latm_protection })
