-- ===== src/Tests/Polling.antt =====
-- The properties of the poller and of what is shown of its snapshot.
use homewizard_exporter.Prelude.{
  ℕ, ◌*◌, ◌^◌, ◌≤◌, min, String, ◌≡◌, refl, sym, ap, ◌≢◌, ◌↔◌, true, false, none, some, [], ◌∷◌,
  ◌++◌, arith, eq_iff, All,
}
use homewizard_exporter.Prelude.Int.{pos}
use homewizard_exporter.Time.{second}
use homewizard_exporter.Config
use homewizard_exporter.Config.{default}
use homewizard_exporter.Homewizard.Client
use homewizard_exporter.Homewizard.Client.{Client, Net}
use homewizard_exporter.Snapshot.{Device, Snapshot, new_device, last_update}
use homewizard_exporter.Poller.{new, poll}
use homewizard_exporter.Poller.Rounds.{Round, Loop, attempt, round, loop, start}
use homewizard_exporter.Poller.Backoff.{
  IsBounded, AllFail, new-IsBounded, backoff_doubles, loop-InBounds,
}
use homewizard_exporter.Homewizard.Errors.{Result, ok, err, message, ok_injective}
use homewizard_exporter.Poller.Frame.{loop-Others}
use homewizard_exporter.Snapshot.Store.{device}
use homewizard_exporter.Poller.Health.{SomeFresh, healthz, healthz_iff}
use homewizard_exporter.Poller.Laws.{IsPolled, poll-IsPolled}
use homewizard_exporter.Metrics.Descriptors.{desc_up, desc_device_info}
use homewizard_exporter.Metrics.Collector.{gauge, collect, collect_device}
use homewizard_exporter.Metrics.Sound.{IsSound}
use homewizard_exporter.Metrics.Collector.Laws.{collect-IsSound}
use homewizard_exporter.Metrics.Unread.{collect_device-unread}
use homewizard_exporter.Web.View.{build_view}
use homewizard_exporter.Web.View.Laws.{view_ready}
use homewizard_exporter.Tests.Samples.{
  platform, codec, p1, p1_net, p1_client, silence, settings, clock,
}

new-IsBounded_example : IsBounded (new (p1 ∷ []) default.poll (pos 0) (pos 7))
new-IsBounded_example =
    new-IsBounded (p1 ∷ []) default.poll (pos 0) (pos 7) (omega arith) (omega arith)

abbrev bounds : IsBounded settings
bounds = record {
  low = 5 * second;
  high = 120 * second;
  is_low = refl;
  is_high = refl;
  positive = omega arith;
  ordered = omega arith;
  fits = omega arith;
}

abbrev unplugged : Net → Config.Device → Result Client
unplugged net d = err (message "unplugged")

abbrev quiet : Round
quiet = record {
  net = silence;
  clock = clock;
  elapsed = pos 5;
  now = 110;
  random = 0;
  cancelled = false;
}

abbrev begin : Loop ℕ
begin = start settings none

both_fail : AllFail platform codec unplugged settings p1 (quiet ∷ quiet ∷ []) begin
unfolding attempt round
both_fail = (refl, (λ h. cc), (refl, (λ h. cc), tt))

backoff_doubles_example :
    (loop platform codec unplugged settings p1 (quiet ∷ quiet ∷ []) begin).backoff
    ≡ pos (min (5 * second * 2 ^ 2) (120 * second))
backoff_doubles_example =
    backoff_doubles platform codec unplugged settings p1 bounds (quiet ∷ quiet ∷ []) begin refl
      both_fail

loop-InBounds_example :
    (n : ℕ) × ((loop platform codec unplugged settings p1 (quiet ∷ quiet ∷ []) begin).backoff
      ≡ pos n)
    × (5 * second ≤ n)
    × (n ≤ 120 * second)
loop-InBounds_example =
    loop-InBounds platform codec unplugged settings p1 bounds (quiet ∷ quiet ∷ []) begin
      (5 * second, refl, omega arith, omega arith)

poll-IsPolled_example :
    IsPolled platform codec p1_net clock none p1_client
      (Client.measurement platform codec p1_net p1_client)
      (poll platform codec settings p1_net clock none p1_client)
poll-IsPolled_example = poll-IsPolled platform codec p1_net clock settings none p1_client

abbrev hall : Device ℕ
hall = record (new_device "hall") { measured_at = 50 }

abbrev flat : Snapshot ℕ
flat = record { devices = ("hall", hall) ∷ [] }

healthz_iff_example : (healthz (some flat) 75 (pos 20) ≡ none) ↔ SomeFresh 75 (pos 20) (hall ∷ [])
healthz_iff_example = healthz_iff (some flat) 75 (pos 20)

view_ready_example :
    ((build_view platform (some flat) (pos 20) 75).up ≡ true)
    ↔ (healthz (some flat) 75 (pos 20) ≡ none)
view_ready_example = view_ready platform (some flat) (pos 20) 75

collect-IsSound_example : All (IsSound ℕ) (collect platform (some flat) (pos 20) 75)
collect-IsSound_example = collect-IsSound platform (some flat) (pos 20) 75

never : last_update (new_device {F = ℕ} "attic") ≡ 0
unfolding last_update new_device
never = refl

collect_device-unread_example :
    collect_device platform (pos 20) 75 (new_device "attic")
    ≡ gauge desc_up "attic" 0 []
      ++ gauge desc_device_info "attic" 1 ("" ∷ "" ∷ "" ∷ "" ∷ "" ∷ "" ∷ [])
unfolding new_device
collect_device-unread_example =
    collect_device-unread platform (pos 20) 75 (new_device "attic") never

abbrev plugged : Net → Config.Device → Result Client
plugged net d = ok (record p1_client { name = d.name })

plugged-KeepsName : (net : Net) (c : Client) → plugged net p1 ≡ ok c → c.name ≡ "p1"
plugged-KeepsName net c h = ap (λ x. x.name) (sym (ok_injective h))

hall-ne-p1 : ◌≢◌ {A = String} "hall" "p1"
hall-ne-p1 = ground (arith, eq_iff "hall" "p1")

abbrev active : Round
active = record quiet { net = p1_net }

loop-Others_example :
    device (loop platform codec plugged settings p1 (active ∷ quiet ∷ []) begin).store "hall"
    ≡ device none "hall"
loop-Others_example =
    loop-Others platform codec plugged settings p1 (active ∷ quiet ∷ []) begin "hall"
      plugged-KeepsName tt hall-ne-p1
