-- ===== src/Tests/Storing.antt =====
-- The theorems on `MZHandler::Go` with generated mazes, applied at a server of the tests.
use test.Prelude.{refl, arith, true}
use test.Handler.Generated.Stores.Loop.{Completes, generate_all-Completes}
use test.Handler.Generated.Whole.{Runs, go_generated-Runs}
use test.Tests.{raw}
use test.Tests.Generating.{blocks, blocks-Feeds}
use test.Tests.Library.{floats}
use test.Tests.Server.{desk, server, link, at_desk, failing}

generate_all-Completes_example :
    Completes
      (desk failing)
      (server failing)
      floats
      3
      (λ _ _ _. omega arith)
      (λ _. raw)
      true
      1
      (blocks 91)
      4
      (at_desk failing)
generate_all-Completes_example =
    generate_all-Completes (desk failing) (server failing) floats 3 (λ _ _ _. omega arith)
      (λ _. raw) true 1 (blocks 91) 4 (at_desk failing) (blocks-Feeds 91)

go_generated-Runs_example :
    Runs
      (desk failing)
      (server failing)
      (link failing)
      floats
      3
      (λ _ _ _. omega arith)
      (λ _. raw)
      (blocks 18200)
      (at_desk failing)
go_generated-Runs_example =
    go_generated-Runs (desk failing) (server failing) (link failing) floats 3 (λ _ _ _. omega arith)
      (λ _ _. refl) (λ _. raw) (blocks 18200) (at_desk failing) (blocks-Feeds 18200)
