-- ===== src/Tests/Pushes.antt =====
-- A push event, and what becomes of it, at concrete inputs.
use burrito.Base.{[]}
use burrito.Base.Int.{pos}
use burrito.World.{World, PodPhase}
use burrito.Repository.Heeded.{Heeded}
use burrito.Webhook.{PushEvent, handle_push}
use burrito.Tests.Cluster.{cluster, all_at_zero, Store}
use burrito.Tests.Samples.{empty_store}

abbrev calm : World
calm = cluster PodPhase.running

abbrev push : PushEvent
push = record {
  url = "https://github.com/padok-team/burrito";
  reference = "main";
  sha_before = "abc";
  sha_after = "def";
  changes = [];
}

-- The state after the push, some time later.
abbrev later : Store
later = record (handle_push push all_at_zero calm empty_store).1 { time = pos 700 }
