-- ===== src/Examples/Unplugged.antt =====
-- The commands on a handle whose device could not be opened.
use libtopfield.Base.{ℕ, false, List, [], ◌∷◌, replicate}
use libtopfield.Base.Int.{pos}
use libtopfield.Base.Texts.{codes}
use libtopfield.Handle.{State}
use libtopfield.Commands.Closed.{Arguments}
use libtopfield.Examples.Device.{open_handle}

abbrev arguments : Arguments
arguments = record {
  on = pos 1;
  path = codes "/a";
  dest = codes "/b";
  offset = 0;
  buffer = 1 ∷ 2 ∷ [];
  size = 2;
  stamp = pos 0;
  stale = replicate 95 0;
}

abbrev unplugged : State (List (List ℕ))
unplugged = record { tf = record open_handle { dev = false }; world = [] }
