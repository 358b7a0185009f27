-- ===== src/Tests/Capture.antt =====
-- The properties of captures.
use homewizard_exporter.Prelude.{
  ℕ, String, ◌≡◌, refl, true, none, some, List, [], ◌∷◌, ◌++◌, length,
}
use homewizard_exporter.Homewizard.Client
use homewizard_exporter.Homewizard.Client.{Client, Net}
use homewizard_exporter.Command.Capture.Files.{Json}
use homewizard_exporter.Tests.Samples.{join}
use homewizard_exporter.Text.{codes, cut_prefix}
use homewizard_exporter.Command.Capture.Scrub.{text, object, end, field}
use homewizard_exporter.Command.Capture.Telegram.{
  scan, scrub_telegram, span_digits, object_code, until_close, identifier,
}
use homewizard_exporter.Command.Capture.Telegram.Laws.{IsScrubbed, scrub_telegram-IsScrubbed}

abbrev telegram : List ℕ
telegram = codes "0-0:96.1.1(4530)" ++ 10 ∷ codes "1-0:1.8.1(10830.511*kWh)"

blanks : scrub_telegram telegram ≡ codes "0-0:96.1.1(0000)" ++ 10 ∷ codes "1-0:1.8.1(10830.511*kWh)"
unfolding scrub_telegram scan identifier span_digits cut_prefix object_code until_close
blanks = refl

scrub_telegram-IsScrubbed_example :
    IsScrubbed true telegram (scrub_telegram telegram)
    × (length (scrub_telegram telegram) ≡ length telegram)
scrub_telegram-IsScrubbed_example = scrub_telegram-IsScrubbed telegram

-- Every body is a document whose serial it is.
abbrev serial_json : Json ℕ
serial_json = record {
  decode = λ body. some (object (field "serial" (text body) end));
  encode = λ u. some [];
  indent = λ body. none;
}

abbrev says : String → Net
says body = record {
  resolve = join;
  send = λ r. some (record { status = 200; body = body });
  handshake = λ r. none;
}
