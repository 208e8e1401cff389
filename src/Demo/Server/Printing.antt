-- ===== src/Demo/Server/Printing.antt =====
-- server.cpp: the lists that Server::run and Server::printHosts print.
use gocusp.Base.{List, [], ℕ, ◌∷◌}
use gocusp.Runtime.Engine.{Engine, Log, SuiteKind, suite_cost, suite_name}
use gocusp.Runtime.World.{World, ◌>>◌}

-- The calls so far, with those for the name and the cost of each suite.
abbrev pub suites_log : SuiteKind → List ℕ → Log → Log
suites_log k [] l = l
suites_log k (x ∷ xs) l = suites_log k xs (suite_cost k x ∷ suite_name k x ∷ l)
