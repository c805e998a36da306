-- ===== src/Store/ProgressTests.antt =====
-- Saving and loading the progress of a follower at a concrete input.
use vasto.Prelude.{◌≡◌, refl, true, [], codes, none, ok, arith}
use vasto.Prelude.Int.{pos}
use vasto.Storage.Rocks.{MergeOperator, Engine, Rocks, put, admits, incr}
use vasto.Storage.Rocks.Memory.{memory}
use vasto.Store.Progress.{load_progress, save_progress, save_offset}
use vasto.Store.Progress.Laws.{load_progress-save_progress}

abbrev keep : MergeOperator
keep old operands = ok (old, true)

abbrev engine : Engine keep
engine = memory keep []

abbrev empty : Rocks engine
empty = record { db = λ key. []; client_counter = pos 0 }

saved : (save_progress engine (codes "host:8279") 3 7 4096 empty).1 ≡ none
unfolding save_progress save_offset put admits incr
saved = refl

load_progress-save_progress_example :
    load_progress engine
      (codes "host:8279")
      3
      (save_progress engine (codes "host:8279") 3 7 4096 empty).0
    ≡ ok (record { segment = 7; offset = 4096; has_progress = true }, none)
load_progress-save_progress_example =
    load_progress-save_progress engine (codes "host:8279") 3 7 4096 empty (omega arith)
      (omega arith) saved
