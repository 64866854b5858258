-- ===== src/Agent/Graph/Tests.antt =====
-- A run at concrete inputs.
use web_hooks.Base.{[], ◌≡◌, ◌+◌, refl, some}
use web_hooks.Worker.Monad.{Returns, ◌>>=◌, modify, pure}
use package.web_hooks.Agent.Graph.{graph, stage_of, run_diagnosis, diagnose_and_record}
use package.web_hooks.Agent.Graph.Checked.{IsRecorded, HasStub, run_diagnosis-IsRecorded}
use package.web_hooks.Agent.Graph.Confined.{Confined, diagnose_and_record-Confined}
use package.web_hooks.Agent.Graph.Fuel.{tool_loop-fuel}
use web_hooks.Agent.Loop.{tool_loop}
use package.web_hooks.Agent.Graph.Samples.{setting, begin}

diagnose_and_record-Confined_example :
    Confined setting begin (diagnose_and_record setting (some 0) begin).1
diagnose_and_record-Confined_example = diagnose_and_record-Confined setting (some 0) begin

run_diagnosis-IsRecorded_example :
    Returns (IsRecorded setting) (HasStub setting begin) (run_diagnosis setting (some 0) begin)
run_diagnosis-IsRecorded_example = run_diagnosis-IsRecorded setting (some 0) begin

tool_loop-fuel_example :
    tool_loop setting [] [] 2 (1 + 2) 0 [] (stage_of setting 0 begin)
    ≡ tool_loop setting [] [] 2 2 0 [] (stage_of setting 0 begin)
tool_loop-fuel_example = tool_loop-fuel setting [] [] 2 1 [] (stage_of setting 0 begin)

-- The run makes six calls of the model.
six_calls : (graph setting (stage_of setting 0 begin)).1.asked ≡ 6
unfolding graph ◌>>=◌ modify pure
six_calls = refl
