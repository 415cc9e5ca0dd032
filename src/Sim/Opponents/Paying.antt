-- ===== src/Sim/Opponents/Paying.antt =====
-- What the stand-in players accept (bazaar_sim/opponents.py).
use mathlib.Core.List.Sublist
use mathlib.Core.List.{Sublist}
use spaceport_bazzar_client.Base.{List}
use spaceport_bazzar_client.Domain.Bundle.{Bundle}
