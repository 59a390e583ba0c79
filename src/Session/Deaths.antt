-- ===== src/Session/Deaths.antt =====
-- session.rs: how many announcements and flags are out or to come.
use bolide.Base.{
  if◌then◌else◌, ℕ, zero, suc, ◌+◌, ◌++◌, ◌≤◌, Bool, true, false, not, Option, List, [], ◌∷◌, ◌≡◌,
  ap, ◌∙◌, arith,
}
use bolide.Base.Text.{Text}
use bolide.Error.{Error}
use bolide.Session.{
  write, request, Inner, emit, count_request, push_command, swap_connected, raise_shutdown,
  ServerEvent, painted_event, resized, cut_text_event, bell_event, disconnected,
}
use bolide.Session.Steps.{Call, counting, pushing, announcing, raising, progress, advance, if-both}

abbrev pub is_death : ServerEvent → ℕ
is_death (disconnected reason) = 1
is_death (painted_event n) = 0
is_death (resized w h) = 0
is_death (cut_text_event text) = 0
is_death bell_event = 0

abbrev pub deaths : List ServerEvent → ℕ
deaths [] = 0
deaths (e ∷ events) = is_death e + deaths events

-- How many calls are before their announcement, and how many before they raise the flag.
abbrev pub is_announcing : Call → ℕ
is_announcing (announcing reason) = 1
is_announcing raising = 0
is_announcing (counting c) = 0
is_announcing (pushing c) = 0

abbrev pub is_raising : Call → ℕ
is_raising raising = 1
is_raising (announcing reason) = 0
is_raising (counting c) = 0
is_raising (pushing c) = 0

abbrev pub marking : List Call → ℕ
marking [] = 0
marking (c ∷ cs) = is_announcing c + is_raising c + marking cs

abbrev pub announcements : List Call → ℕ
announcements [] = 0
announcements (c ∷ cs) = is_announcing c + announcements cs

-- 1 for `true`.
abbrev pub up : Bool → ℕ
up true = 1
up false = 0

-- A session that died has an announcement, out or to come, and a flag, up or to be raised.
abbrev pub Tallied : List Call → Inner → Type 0
Tallied cs s =
    (deaths s.events + announcements cs ≡ up (not s.connected))
    × (up s.shutdown + marking cs ≡ up (not s.connected))

pub deaths-append :
    (events : List ServerEvent) (e : ServerEvent)
    → deaths (events ++ (e ∷ [])) ≡ deaths events + is_death e
deaths-append [] e = omega arith
deaths-append (d ∷ events) e = omega (arith, deaths-append events e)

pub emit-Tallied :
    (cs : List Call) (s : Inner) (e : ServerEvent)
    → is_death e ≡ 0
    → Tallied cs s
    → Tallied cs (emit s e)
unfolding emit
emit-Tallied cs s e d h = (omega (arith, deaths-append s.events e, d, h.0), h.1)

pub up_one : (b : Bool) → up b ≤ 1
up_one true = omega arith
up_one false = omega arith

-- The tally among other calls: `a` announcements and `m` marks are theirs.
abbrev pub Among : (a m : ℕ) → List Call → Inner → Type 0
Among a m cs s =
    (deaths s.events + (a + announcements cs) ≡ up (not s.connected))
    × (up s.shutdown + (m + marking cs) ≡ up (not s.connected))

progress-Among :
    (a m : ℕ) (c : Call) (cs : List Call) (s : Inner)
    → Among a m (c ∷ cs) s
    → Among a m ((progress c s).0 ++ cs) ((progress c s).1)
unfolding progress count_request push_command emit raise_shutdown
progress-Among a m (counting (write b)) cs s h = (omega (arith, h.0), omega (arith, h.1))
progress-Among a m (counting (request i)) cs s h = (omega (arith, h.0), omega (arith, h.1))
progress-Among a m (pushing c) cs s h =
    let same : Among a m cs s = (omega (arith, h.0), omega (arith, h.1)) in
    if-both (λ (r : Inner × Option Error). Among a m cs r.0) s.receiving _ _ (λ _. same) (λ _. same)
progress-Among a m (announcing reason) cs s h =
    (omega (arith, h.0, deaths-append s.events (disconnected reason)), omega (arith, h.1))
progress-Among a m raising cs s h =
    (omega (arith, h.0), omega (arith, h.1, up_one (not s.connected)))

pub advance-Among :
    (a m n : ℕ) (cs : List Call) (s : Inner)
    → Among a m cs s
    → Among a m ((advance n cs s).0) ((advance n cs s).1)
unfolding advance
advance-Among a m n [] s h = h
advance-Among a m zero (c ∷ cs) s h = progress-Among a m c cs s h
advance-Among a m (suc n) (c ∷ cs) s h =
    let deeper =
      advance-Among (a + is_announcing c) (m + (is_announcing c + is_raising c)) n cs s
        (omega (arith, h.0), omega (arith, h.1)) in
    (omega (arith, deeper.0), omega (arith, deeper.1))

-- The swap of a session that is alive leaves one announcement and one flag to come.
pub swap-Tallied :
    (cs : List Call) (reason : Option Text) (s : Inner) (alive : Bool)
    → s.connected ≡ alive
    → Tallied cs s
    → Tallied (if alive then announcing reason ∷ cs else cs) (swap_connected s)
unfolding swap_connected
swap-Tallied cs reason s true e h =
    let none_yet : up (not s.connected) ≡ 0 = ap (λ b. up (not b)) e in
    (omega (arith, h.0, none_yet), omega (arith, h.1, none_yet))
swap-Tallied cs reason s false e h =
    let already : up (not s.connected) ≡ 1 = ap (λ b. up (not b)) e in
    (h.0 ∙ already, h.1 ∙ already)
