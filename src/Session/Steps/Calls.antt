-- ===== src/Session/Steps/Calls.antt =====
-- session.rs: what the accesses of calls under way keep.
use bolide.Base.{ℕ, zero, suc, List, [], ◌∷◌}
use bolide.Session.{Inner}
use bolide.Session.Steps.{Call, progress, advance}

-- What each access keeps, any of them keeps.
pub advance-keeps :
    (P : Inner → Type 0)
    → ((c : Call) (s : Inner) → P s → P (progress c s).1)
    → (n : ℕ) (cs : List Call) (s : Inner) → P s
    → P (advance n cs s).1
unfolding advance
advance-keeps P keeps n [] s h = h
advance-keeps P keeps zero (c ∷ cs) s h = keeps c s h
advance-keeps P keeps (suc n) (c ∷ cs) s h = advance-keeps P keeps n cs s h
