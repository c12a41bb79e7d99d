-- ===== src/Jobs/Sweep.antt =====
-- app/jobs/sweep_reservations.py. The loop of `main` runs on fuel; each of its transactions has a time
-- of its own, which the caller gives by the fuel that is left.
pub mod Drain
use canals_assessment.Prelude.{ℕ, zero, suc, ◌+◌, Option, none, some, length}
use canals_assessment.Sql.{select_rows}
use canals_assessment.Db.Rows.{Db}
use canals_assessment.Db.Tx.{Tx, pure, modify, begin, ◌>>=◌, ◌>>◌}
use canals_assessment.Repositories.Reservation.{sweep_expired}

unfoldable pub sweep_once : ℕ → Tx ℕ
sweep_once batch_size = do released ← begin (sweep_expired batch_size); pure (length released)

abbrev pub at_time : ℕ → Db → Db
at_time t db = record db { now = t }

-- The loop of `main`; `none` is a loop that ran out of fuel.
unfoldable pub drain : ℕ → ℕ → (ℕ → ℕ) → ℕ → Tx (Option ℕ)
drain batch_size zero clock total = pure none
drain batch_size (suc fuel) clock total = do
  modify (at_time (clock fuel))
  n ← sweep_once batch_size
  elim n [ zero ↦ pure (some total) | suc m ↦ drain batch_size fuel clock (total + suc m) ]

unfoldable pub main : ℕ → (ℕ → ℕ) → Tx (Option ℕ)
main fuel clock = drain 500 fuel clock 0
