-- ===== src/Signal/Opened.antt =====
-- util-src/signal.c: lsignal_lib, the functions in the table of the module.
use prosody_trunk.Base.{Bool, [], ◌∷◌, if◌then◌else◌}
use prosody_trunk.Base.Text.{bytes}
use prosody_trunk.Exports.{Reg}

pub data SignalFunction : Type 0 where
  l_signal l_raise l_kill : SignalFunction

-- The platform decides whether there is an `l_kill`.
pub lsignal_lib : Bool → Reg SignalFunction
lsignal_lib unix =
    (bytes "signal", l_signal)
    ∷ (bytes "raise", l_raise)
    ∷ (if unix then (bytes "kill", l_kill) ∷ [] else [])
