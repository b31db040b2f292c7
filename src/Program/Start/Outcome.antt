-- ===== src/Program/Start/Outcome.antt =====
-- Every way through `main` (apptpl/main.c).
use capptpl.Program.{Answers as MainAnswers, nothing_held as none_held}
use capptpl.Capture.{Answers as CaptureAnswers, Settings as CaptureSettings}
use capptpl.Config.{Config}
