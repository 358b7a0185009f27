-- ===== src/Tests/Fleet.antt =====
-- The properties of the loops of several devices, whose accesses are interleaved.
use homewizard_exporter.Prelude.{
  ℕ, String, ◌≡◌, refl, sym, ap, ◌≢◌, true, false, none, List, [], ◌∷◌, ◌++◌, arith, eq_iff, All,
}
use homewizard_exporter.Prelude.Int.{pos}
use homewizard_exporter.Config
use homewizard_exporter.Homewizard.Errors.{Result, ok, err, ok_injective}
use homewizard_exporter.Homewizard.Models.{Measurement, no_measurement}
use homewizard_exporter.Homewizard.Client
use homewizard_exporter.Homewizard.Client.{Client, Net}
use homewizard_exporter.Homewizard.V1.Projection.{externals, measurement, promote_gas}
use homewizard_exporter.Snapshot.{new_device}
use homewizard_exporter.Snapshot.Store.{update, device}
use homewizard_exporter.Poller.{poll}
use homewizard_exporter.Poller.Rounds.{Round, attempt, round, loop, start, announce, poll_with}
use homewizard_exporter.Poller.Health.{healthz}
use homewizard_exporter.Poller.Frame.{KeepsName}
use homewizard_exporter.Poller.Steps.{
  followed_by, attempt_steps, poll_steps, rest_steps, state_steps, slow_steps, system_steps,
  batteries_steps, note_steps,
}
use homewizard_exporter.Poller.Fleet.{loop_of, rounds_of, launch, put}
use homewizard_exporter.Poller.Fleet.Alike.{Alike}
use homewizard_exporter.Poller.Schedule.{
  Action, begin, advance, act, acts, ends, passes, proceed, assign, settle_pass, idle,
}
use homewizard_exporter.Poller.Schedule.Laws.{AllMembers, interleaved_alone}
use homewizard_exporter.Poller.Recovery.{Answers, run_recovers}
use homewizard_exporter.Web.View.{build_view}
use homewizard_exporter.Tests.Samples.{
  platform, codec, p1, p1_net, p1_client, silence, settings, clock,
}

abbrev hall : Config.Device
hall = record p1 { name = "hall" }

abbrev connected : Net → Config.Device → Result Client
connected net d = ok (record p1_client { name = d.name })

connected-KeepsName : (d : Config.Device) → KeepsName platform codec connected settings d
connected-KeepsName d net c h = ap (λ (x : Client). x.name) (sym (ok_injective h))

abbrev dark : Round
dark = record {
  net = silence;
  clock = clock;
  elapsed = pos 5;
  now = 110;
  random = 0;
  cancelled = false;
}

abbrev light : Round
light = record dark { net = p1_net }

hall-ne-p1 : ◌≢◌ {A = String} "hall" "p1"
hall-ne-p1 = ground (arith, eq_iff "hall" "p1")

-- The pass of the hall begins in the middle of the first of p1 and has not ended when p1's second has.
abbrev mixed : List Action
mixed =
    begin p1 dark
    ∷ advance "p1"
    ∷ begin hall dark
    ∷ advance "p1"
    ∷ begin p1 light
    ∷ advance "p1"
    ∷ advance "hall"
    ∷ advance "p1"
    ∷ advance "p1"
    ∷ advance "p1"
    ∷ advance "p1"
    ∷ advance "p1"
    ∷ []

mixed-AllMembers : AllMembers platform codec connected settings p1 mixed
mixed-AllMembers = (
  (connected-KeepsName p1, λ e. refl),
  (
    tt,
    (
      (connected-KeepsName hall, λ e. absurd (hall-ne-p1 e)),
      (tt, ((connected-KeepsName p1, λ e. refl), (tt, (tt, (tt, (tt, (tt, (tt, (tt, tt))))))))),
    ),
  ),
)

mixed_free : (acts platform codec connected settings mixed (idle settings none)).tasks "p1" ≡ none
unfolding acts act proceed assign idle launch put settle_pass followed_by attempt_steps poll_steps
    rest_steps state_steps slow_steps system_steps batteries_steps note_steps Client.measurement
    Client.get_json Client.perform Client.status_error Client.new_request measurement externals
    promote_gas device update announce new_device Client.system Client.request_to
mixed_free = refl

mixed_ended :
    rounds_of "p1" (passes platform codec connected settings mixed (idle settings none))
    ≡ (dark ∷ []) ++ light ∷ []
unfolding passes ends rounds_of acts act proceed assign idle launch put settle_pass followed_by
    attempt_steps poll_steps rest_steps state_steps slow_steps system_steps batteries_steps
    note_steps Client.measurement Client.get_json Client.perform Client.status_error
    Client.new_request measurement externals promote_gas device update announce new_device
    Client.system Client.request_to
mixed_ended = refl

interleaved_alone_example :
    Alike platform codec connected settings p1
      (loop_of (acts platform codec connected settings mixed (idle settings none)).fleet "p1")
      (loop platform codec connected settings p1
        (rounds_of "p1" (passes platform codec connected settings mixed (idle settings none)))
        (start settings (announce settings.devices none)))
interleaved_alone_example =
    interleaved_alone platform codec connected settings p1 mixed none mixed-AllMembers mixed_free

abbrev read_or : Result (Measurement ℕ) → Measurement ℕ
read_or (ok m) = m
read_or (err e) = no_measurement

abbrev reader : Client
reader = record p1_client { name = "p1" }

dark_before : All (λ (x : Round). x.cancelled ≡ false) (dark ∷ [])
dark_before = (refl, tt)

meter-Answers : Answers platform codec connected settings p1 light (
    loop platform codec connected settings p1
      (dark ∷ [])
      (start settings (announce settings.devices none)))
unfolding loop round attempt poll_with poll Client.measurement Client.get_json Client.perform
    Client.status_error Client.new_request measurement externals promote_gas Client.request_to
meter-Answers = record {
  client = reader;
  measurement = read_or (Client.measurement platform codec p1_net reader);
  connected = refl;
  measured = refl;
  going = refl;
}

run_recovers_example :
    (healthz
        (acts platform codec connected settings mixed (idle settings none)).fleet.store
        105
        (pos 20)
      ≡ none)
    × ((build_view platform
          (acts platform codec connected settings mixed (idle settings none)).fleet.store
          (pos 20)
          105).up
        ≡ true)
    × (((acts platform codec connected settings mixed (idle settings none)).fleet.members
          "p1").backoff
        ≡ settings.backoff_min)
run_recovers_example =
    run_recovers platform codec connected settings p1 mixed (dark ∷ []) light none 105 20
      (omega arith) (connected-KeepsName p1) mixed-AllMembers mixed_free mixed_ended dark_before
      meter-Answers (omega arith, omega arith)
