-- ===== src/Tests/Alert.antt =====
-- The rules, the notifier and the command bot at concrete values.
use server_space_manager_ai.Prelude.{
  ℕ, zero, suc, ◌≢◌, false, sym, ap, cat, starts_with, str_eq, String, ◌≡◌, refl, true, some, none,
  List, [], ◌∷◌, ◌++◌, arith, map, select, All, if◌then◌else◌, ◌&&◌,
}
use server_space_manager_ai.Prelude.Int.{ℤ, pos, negsuc, leb_ℤ, ◌+ℤ◌}
use server_space_manager_ai.Prelude.Dict.{get}
use server_space_manager_ai.Prelude.Insertion.{insertion_sorter}
use server_space_manager_ai.Store.{Sample}
use server_space_manager_ai.Alert.Rules.{Texts, default_rules, nothing, eval_all, evaluate}
use server_space_manager_ai.Alert.Rules.Sent.{is_full, message_of, evaluate-sent}
use server_space_manager_ai.Alert.Rules.Rollup.{orphans, IsRolledUp, evaluate-summary}
use server_space_manager_ai.Alert.Telegram.{
  Telegram, Call, new_telegram, enabled, responds, transport_error, failed, suppressed, send,
  posted,
}
use server_space_manager_ai.Alert.Telegram.Dedupe.{accepted, posted-new_telegram, send_lost}
use server_space_manager_ai.Prelude.Runes.{codes}
use server_space_manager_ai.Alert.CommandBot.{CommandBot, Update, Runtime, command_word}
use server_space_manager_ai.Alert.CommandBot.Word.{IsPlain, command_word_lem}
use server_space_manager_ai.Alert.CommandBot.Polling.{IsRising}
use server_space_manager_ai.Tests.{whole_floats, sample_of}
use text.Mathlib.TextLemmas.{append_cancel_left}
use text.Mathlib.TextPositions.{starts_with-append}
use server_space_manager_ai.Alert.CommandBot.{scan, started, reply, run_job}
use server_space_manager_ai.Alert.CommandBot.Replies.{
  Sending, performs, notifies, Handled, sent_replies,
}
use server_space_manager_ai.Alert.CommandBot.Replies.Delivered.{replies_of, sent_replies-replies_of}
use server_space_manager_ai.Alert.CommandBot.Wire.{
  Turn, Decoders, fails, run, api_url, command_list, read_poll,
}
use server_space_manager_ai.Alert.CommandBot.Wire.{responds as responds_http}
use server_space_manager_ai.Alert.CommandBot.Wire.Acknowledged.{
  IsChained, all_updates, run-IsChained,
}

-- A filesystem that is nearly full, whatever its JSON.
abbrev pub full_texts : Texts whole_floats
full_texts = record {
  pct = λ p. "95.0";
  size = λ h. "1.0 GB";
  count = λ n. "2";
  decode_fs = λ e. some (pos 1000, pos 50);
}

abbrev one_of_each : List Sample
one_of_each =
    sample_of "fs" "/" (pos 950) 10
    ∷ sample_of "volume" "data" (pos 6000000000) 10
    ∷ sample_of "orphan_volume" "old" (pos 5) 10
    ∷ []

evaluate-sent_example :
    (evaluate whole_floats full_texts insertion_sorter (default_rules whole_floats) one_of_each).0
    ≡ map
        (message_of whole_floats full_texts (default_rules whole_floats))
        (select (is_full whole_floats full_texts (default_rules whole_floats)) one_of_each)
evaluate-sent_example =
    evaluate-sent whole_floats full_texts (default_rules whole_floats) insertion_sorter one_of_each

evaluate-summary_example :
    IsRolledUp whole_floats full_texts
      (default_rules whole_floats)
      (eval_all whole_floats full_texts (default_rules whole_floats) one_of_each nothing).fired
      (orphans one_of_each)
      (evaluate whole_floats full_texts insertion_sorter (default_rules whole_floats) one_of_each).1
evaluate-summary_example =
    evaluate-summary whole_floats full_texts (default_rules whole_floats) insertion_sorter
      one_of_each

-- A message, the same soon after, and the same an hour later.
abbrev thrice : List Call
thrice =
    record { at = 1000; key = "fs-crit:/"; outcome = responds 200 }
    ∷ record { at = 2000; key = "fs-crit:/"; outcome = responds 200 }
    ∷ record { at = 3600000000000; key = "fs-crit:/"; outcome = transport_error }
    ∷ []

posted-new_telegram_example :
    posted (new_telegram "token" "42") thrice
    ≡ accepted (new_telegram "token" "42").dedupe_window (λ k. none) thrice
unfolding enabled new_telegram
posted-new_telegram_example =
    posted-new_telegram "token" "42" thrice refl (omega arith, (omega arith, (omega arith, tt)))

abbrev small_notifier : Telegram
small_notifier = record { bot_token = "token"; chat_id = "42"; dedupe_window = 60; last = [] }

send_lost_example :
    ((send "k" 100 transport_error small_notifier).0 ≡ failed)
    × (send "k" 130 (responds 200) (send "k" 100 transport_error small_notifier).1
        ≡ (suppressed, (send "k" 100 transport_error small_notifier).1))
unfolding enabled get
send_lost_example =
    send_lost "k" 100 130 (responds 200) small_notifier refl tt refl (omega arith) (omega arith)

scan-IsPlain : All IsPlain (codes "/scan")
scan-IsPlain = ground arith

command_word_lem_example :
    (command_word (λ c. c) (codes "/scan") ≡ codes "/scan")
    × (command_word (λ c. c) (codes "/scan" ++ 32 ∷ codes "now") ≡ codes "/scan")
    × (command_word (λ c. c) ((codes "/scan" ++ 64 ∷ codes "ssm") ++ 32 ∷ codes "now")
        ≡ codes "/scan")
command_word_lem_example =
    command_word_lem (λ c. c) (codes "/scan") (codes "ssm") (codes "now") scan-IsPlain
      (ground arith)

-- All chats but number 42 are strangers.
abbrev chat_names : Runtime
chat_names = record {
  decimal = λ id. if leb_ℤ (pos 42) id && leb_ℤ id (pos 42) then "42" else "7";
  lower_beyond = λ c. c;
}

abbrev full_bot : CommandBot
full_bot = record {
  bot_token = "token";
  allowed_chat_id = "42";
  handlers = record { on_scan = true; on_review = true; on_digest = true; on_status = true };
  offset = negsuc 0;
}

abbrev scan_from : ℤ → ℤ → Update
scan_from id chat = record {
  update_id = id;
  message = some (record { chat = chat; text = codes "/scan" });
}

-- A number as so many strokes.
strokes : ℕ → String
strokes zero = ""
strokes (suc n) = cat "|" (strokes n)

not_a_stroke : (s : String) → "" ≢ cat "|" s
not_a_stroke s e =
    let begins = starts_with-append "|" s in
    let begins_not : starts_with "" "|" ≡ false = refl in absurd cc

strokes_injective : (a b : ℕ) → strokes a ≡ strokes b → a ≡ b
unfolding strokes
strokes_injective zero zero e = refl
strokes_injective zero (suc b) e = absurd (not_a_stroke (strokes b) e)
strokes_injective (suc a) zero e = absurd (not_a_stroke (strokes a) (sym e))
strokes_injective (suc a) (suc b) e =
    ap suc (strokes_injective a b (append_cancel_left "|" (strokes a) (strokes b) e))

abbrev busy_hour : List Sending
busy_hour =
    performs (reply (started scan)) 5 (responds 200)
    ∷ notifies (record { at = 6; key = "fs-crit:/"; outcome = transport_error })
    ∷ performs (run_job scan) 7 transport_error
    ∷ performs (reply (started scan)) 8 (responds 200)
    ∷ []

abbrev say_done : Handled
say_done = record { status = ""; summary = λ j. "3 samples" }

sent_replies-replies_of_example :
    sent_replies say_done strokes (some (new_telegram "token" "42")) busy_hour
    ≡ replies_of say_done busy_hour
sent_replies-replies_of_example =
    sent_replies-replies_of strokes strokes_injective say_done "token" "42" busy_hour (λ e. cc)
      (λ e. cc) (omega arith, (refl, (omega arith, (omega arith, tt))))

-- The updates of three polls, of which the second one has no JSON.
abbrev three_turns : List Turn
three_turns =
    record { ended = false; answer = responds_http 200 "first"; ends_waiting = false }
    ∷ record { ended = false; answer = responds_http 200 "<html>"; ends_waiting = false }
    ∷ record { ended = false; answer = responds_http 200 "second"; ends_waiting = false }
    ∷ []

abbrev two_bodies : Decoders
two_bodies = record {
  updates_resp = λ body.
      if str_eq body "first"
      then some (record {
        ok = true;
        result = scan_from (pos 5) (pos 42) ∷ scan_from (pos 6) (pos 9) ∷ [];
        description = "";
      })
      else if str_eq body "second"
      then some (record { ok = true; result = scan_from (pos 7) (pos 42) ∷ []; description = "" })
      else none;
  envelope = λ body. none;
}

first_rises : IsRising (pos 0) (scan_from (pos 5) (pos 42) ∷ scan_from (pos 6) (pos 9) ∷ [])
unfolding ◌+ℤ◌
first_rises = omega arith

second_rises : IsRising (pos 7) (scan_from (pos 7) (pos 42) ∷ [])
unfolding ◌+ℤ◌
second_rises = omega arith

run-IsChained_example :
    ((run chat_names two_bodies full_bot (fails false) three_turns).registers
      ≡ some (record { url = api_url "token" "setMyCommands"; commands = command_list }))
    × IsChained chat_names two_bodies full_bot
        (negsuc 0)
        (run chat_names two_bodies full_bot (fails false) three_turns).turns
    × IsRising
        (pos 0)
        (all_updates (run chat_names two_bodies full_bot (fails false) three_turns).turns)
unfolding read_poll ◌+ℤ◌
run-IsChained_example =
    run-IsChained chat_names two_bodies full_bot (fails false) three_turns (λ e. cc) (λ e. cc)
      (first_rises, (tt, (second_rises, tt)))
