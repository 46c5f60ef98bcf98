-- ===== src/DspWorker/Clients/Seen.antt =====
-- Several clients of src/tcp_server.c: what happens, as one of them sees it.
use sdr_server.Prelude.{zero, suc, Bool, false, List, [], ◌∷◌, if◌then◌else◌}
use sdr_server.Server.{ClientConfig}
use sdr_server.DspWorker.Thread.{Event, arrives, interrupts}
use sdr_server.DspWorker.Clients.{event, Happening, delivers, turns, ends}

-- What the first client's thread sees of what happens, while the client is running or not.
abbrev pub seen : Bool → List Happening → List Event
seen running [] = []
seen running (delivers bytes ∷ hs) =
    let rest = seen running hs in if running then arrives bytes ∷ rest else rest
seen running (turns zero t ∷ hs) = event t ∷ seen running hs
seen running (turns (suc i) t ∷ hs) = seen running hs
seen running (ends zero ∷ hs) = interrupts ∷ seen false hs
seen running (ends (suc i) ∷ hs) = seen running hs

-- What happens to the others.
abbrev pub later : List Happening → List Happening
later [] = []
later (delivers bytes ∷ hs) = delivers bytes ∷ later hs
later (turns zero t ∷ hs) = later hs
later (turns (suc i) t ∷ hs) = turns i t ∷ later hs
later (ends zero ∷ hs) = later hs
later (ends (suc i) ∷ hs) = ends i ∷ later hs

abbrev pub config_after : List Happening → ClientConfig → ClientConfig
config_after [] c = c
config_after (delivers bytes ∷ hs) c = config_after hs c
config_after (turns i t ∷ hs) c = config_after hs c
config_after (ends zero ∷ hs) c = config_after hs (record c { is_running = false })
config_after (ends (suc i) ∷ hs) c = config_after hs c
