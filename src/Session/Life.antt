-- ===== src/Session/Life.antt =====
-- session.rs: the death of a session is announced once, however the accesses of its calls interleave.
use bolide.Base.{◌≤◌, true, false, ◌≡◌}
use bolide.Base.Text.{Text}
use bolide.Session.Steps.{World}
use bolide.Session.Deaths.{deaths, marking, Tallied}

abbrev Fair : World → Type 0
Fair w = Tallied w.calls w.inner

-- What a caller can rely on at any point of a run.
pub record Announced (w : World) : Type 0 where
  -- Alive: nothing was announced, and the flag is down.
  pub alive : w.inner.connected ≡ true → (deaths w.inner.events ≡ 0) × (w.inner.shutdown ≡ false)
  -- Never announced twice, and the flag goes up behind the announcement.
  pub once : deaths w.inner.events ≤ 1
  pub behind : w.inner.shutdown ≡ true → deaths w.inner.events ≡ 1
  -- Dead, and every call that marks is through: it was announced, and the flag is up.
  pub through :
      w.inner.connected ≡ false
      → marking w.calls ≡ 0
      → (deaths w.inner.events ≡ 1) × (w.inner.shutdown ≡ true)
