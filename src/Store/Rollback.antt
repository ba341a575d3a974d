-- ===== src/Store/Rollback.antt =====
-- What a request leaves behind (backend/app/api/deps.py).
use gd_classroom.Prelude.{◌≡◌, refl, [], err}
use gd_classroom.Store.{AppError, Action, Db, unit_of_work}

-- A request that raises changes nothing, and nobody hears of it.
pub unit_of_work-err :
    {A : Type 0} (m : Action Db A) (e : AppError) (db db' : Db)
    → m db ≡ (err e, db')
    → unit_of_work m db ≡ record { result = err e; db = db; published = []; sent = [] }
unfolding unit_of_work
unit_of_work-err m e db db' h = rw (h, unit_of_work) refl
