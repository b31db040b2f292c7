-- ===== src/Http/Loop/Served.antt =====
-- What the event loop answers, up to the signal that ends it.
use capptpl.Base.{List, Option, [], if◌then◌else◌, some, ℕ, ◌&&◌, ◌++◌, ◌==◌, ◌||◌, ◌∷◌, ◌≡◌}
use capptpl.Http.{Lib, Reply, Resource}
use capptpl.Http.Dispatch.{IsReportable, replies_for}
use capptpl.Http.Loop.{LoopEvent, request, signal, timer}

-- The replies to the requests before the first signal that ends the loop, with what the threads
-- have made of `struct app` by each.
unfoldable pub served_replies : Lib → List LoopEvent → List Reply
served_replies lib [] = []
served_replies lib (timer ∷ es) = served_replies lib es
served_replies lib (signal event fd ∷ es) =
    let rest = served_replies lib es in if event == 8 && (fd == 2 || fd == 15) then [] else rest
served_replies lib (request m uri app ∷ es) = replies_for lib app m uri ++ served_replies lib es

-- At each request the configuration and the capture can be shown.
abbrev pub IsAnswerable : Lib → LoopEvent → Type 0
IsAnswerable lib (request m uri app) = IsReportable lib app
IsAnswerable lib (signal event fd) = Unit
IsAnswerable lib timer = Unit

-- What the loop leaves: these replies, and nothing allocated.
abbrev pub Served : List Reply → Option ((List Reply × ℕ) × List Resource) → Type 0
Served rs o = (interval : ℕ) × (o ≡ some ((rs, interval), []))
