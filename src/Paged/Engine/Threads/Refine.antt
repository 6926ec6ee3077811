-- ===== src/Paged/Engine/Threads/Refine.antt =====
-- The threads of paged/PageEngine.cpp, step by step, do what its operations do one after the other.
use option_hedge.Base.{ℕ}
use option_hedge.Base.Text.{Text}
use option_hedge.Os.{Os}
use option_hedge.Paged.Engine.{SystemWriter, Engine}
use option_hedge.Paged.Engine.Reach
use option_hedge.Paged.Engine.Reach.{Reach}
use option_hedge.Paged.Engine.Threads.{Threads}
use option_hedge.Paged.Engine.Threads.Holds.{settled, CommHolds, SocketHolds}

module _ (os : Os) (system : SystemWriter os) (dump : Text → Text → ℕ → ℕ → ℕ → Text) where
  record Inv (e : Engine os system) (s : Threads os system) : Type 0 where
    comm_holds : CommHolds s.comm s.mutex s.engine.comm
    socket_holds : SocketHolds s.socket s.mutex
    reached : Reach os system dump e (settled os system s.comm s.engine)
