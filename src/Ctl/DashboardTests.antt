-- ===== src/Ctl/DashboardTests.antt =====
-- The dashboard on a few messages and over the small server of the client's tests.
use dezhan.Base.{
  ℕ, ◌/◌, ◌++◌, refl, All, length, ltb, leb, ◌==◌, suc, ◌≡◌, ◌≢◌, ◌⊎◌, [], ◌∷◌, List, true, false,
  none, some,
}
use dezhan.Text.{Text, codes, pos, itoa}
use dezhan.Ctl.Client.{health}
use dezhan.Ctl.Metrics.{Floats}
use dezhan.Ctl.Dashboard.View.{Lipgloss, Numbers, all_of, human, card_rows, view}
use dezhan.Ctl.Dashboard.Cards.{IsRow, joined, card_rows-joined}
use dezhan.Ctl.Dashboard.{
  Snapshot, Model, Message, key, window_size, tick, snapshot, new_model, init, second, below_second,
  take_snapshot, value_or, empty_snapshot,
}
use dezhan.Ctl.Dashboard.Runs.{repeat, run, commands, ticks, asked, run-shown, asked-commands}
use dezhan.Ctl.Dashboard.Fetch.{take_snapshot-some}
use dezhan.Ctl.Tests.{http, client}
use dezhan.Ctl.MetricTests.{texts}

abbrev shot : Snapshot texts
shot = record (empty_snapshot texts) { health = codes "ok"; at = 5 }

abbrev messages : List (Message texts)
messages = key (codes "r") ∷ tick ∷ snapshot shot ∷ window_size 80 24 ∷ []

abbrev model : Model texts
model = new_model texts (codes "http://v") (pos 10)

run-shown_example :
    ((run texts model messages).snap ≡ shot)
    × ((run texts model messages).loaded ≡ true)
    × ((run texts model messages).endpoint ≡ codes "http://v")
    × ((run texts model messages).every ≡ second)
    × (below_second (run texts model messages).every ≡ false)
run-shown_example = run-shown texts (codes "http://v") (pos 10) messages

asked-commands_example :
    asked texts (init texts model ∷ commands texts model messages)
    ≡ repeat (suc (ticks texts messages)) model.every
asked-commands_example = asked-commands texts model messages

abbrev names : List Text
names = codes "a" ∷ codes "b" ∷ []

take_snapshot-some_example :
    (s : Snapshot texts) × ((take_snapshot texts http client 7 []).0 ≡ some s)
    × (((s.error ≡ none) × (s.metrics ≢ none)) ⊎ ((s.error ≢ none) × (s.metrics ≡ none)))
    × (s.health ≡ value_or [] (health http client []).0)
take_snapshot-some_example = take_snapshot-some texts http client 7 []

-- natural numbers in place of floats, and texts without colours
abbrev naturals : Floats
naturals = record { F = ℕ; zero = 0; parse = λ t. some (length t) }

abbrev plain_texts : Lipgloss
plain_texts = record {
  Style = Unit {0};
  new_style = tt;
  bold = λ s. s;
  foreground = λ c s. s;
  background = λ c s. s;
  padding = λ a b s. s;
  rounded_border = λ s. s;
  border_foreground = λ c s. s;
  width = λ n s. s;
  render = λ s t. t;
  join_horizontal = λ ts. all_of ts;
}

abbrev numbers : Numbers ℕ
numbers = record {
  unit = 1024;
  is_zero = λ n. n == 0;
  lt = ltb;
  le = leb;
  div = λ a b. a / b;
  fixed0 = λ n. itoa (pos n);
  fixed1 = λ n. itoa (pos n) ++ codes ".0";
  clock = λ n. itoa (pos n);
  duration = λ d. itoa d;
}

five_megabytes : human naturals plain_texts numbers 5242880 ≡ codes "5.0 MiB"
unfolding human itoa
five_megabytes = refl

abbrev six_cards : List Text
six_cards = names ++ (names ++ names)

card_rows-joined_example :
    All IsRow (card_rows (length six_cards) 0 six_cards)
    × (joined (card_rows (length six_cards) 0 six_cards) ≡ six_cards)
card_rows-joined_example = card_rows-joined six_cards

waiting :
    view naturals plain_texts numbers (new_model naturals (codes "v") (pos 10))
    ≡ codes "\n  connecting to v ...\n"
unfolding view new_model
waiting = refl
