-- ===== src/Report/Chain.antt =====
-- The chain in pipe mode: what the workers write, as manage relays it and the report prints it.
use perfnum.Prelude.{◌≡◌, refl, ap, ℤ, ◌==ℤ◌, Bool, false, List, [], ◌∷◌, ◌++◌}
use perfnum.Packet.{PacketId, closed, Packet, whole, get_packet}
use perfnum.Manage.Pipe
use perfnum.Report.{Line, number, Look}
use perfnum.Report.Listen.{arrived, signalled, is_last}

-- A packet that the report goes on after.
abbrev Passes : ℤ → Packet → Type 0
Passes manage p = is_last manage p p.id ≡ false

abbrev AllPass : ℤ → List Packet → Type 0
AllPass manage [] = Unit
AllPass manage (p ∷ ps) = Passes manage p × AllPass manage ps

-- A closed packet with the process id of manage.
abbrev pub is_manage : ℤ → PacketId → Packet → Bool
is_manage manage closed p = p.first ==ℤ manage
is_manage manage _ p = false

-- No worker sends one.
abbrev pub OtherPids : ℤ → List Pipe.Look → Type 0
OtherPids manage [] = Unit
OtherPids manage (l ∷ ls) =
    let p = (get_packet l.read).1 in (is_manage manage p.id p ≡ false) × OtherPids manage ls

-- The report reads the packets one by one, and no signal is caught.
abbrev pub reading : List Packet → List Look
reading [] = []
reading (p ∷ ps) = record { caught = false; read = whole p } ∷ reading ps

pub arrived-reading : (ps : List Packet) → arrived (reading ps) ≡ ps
unfolding get_packet
arrived-reading [] = refl
arrived-reading (p ∷ ps) = ap (λ r. p ∷ r) (arrived-reading ps)

signalled-reading : (ps : List Packet) → signalled (reading ps) ≡ false
signalled-reading [] = refl
signalled-reading (p ∷ ps) = signalled-reading ps

-- The numbers among the lines printed.
abbrev pub number_on : Line → List ℤ
number_on (number n) = n ∷ []
number_on _ = []

abbrev pub printed : List Line → List ℤ
printed [] = []
printed (l ∷ ls) = number_on l ++ printed ls
