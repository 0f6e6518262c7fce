-- ===== src/Ctl/MetricTests.antt =====
-- Parsing metrics whose values are kept as they are written.
use dezhan.Base.{◌≡◌, ◌≢◌, refl, [], ◌∷◌, List, false, none, some, All, arith}
use dezhan.Text.{Text, codes, has_prefix, is_space}
use dezhan.Ctl.Metrics.{Floats, parse_metrics}
use dezhan.Ctl.Metrics.Lines.{parse_metrics-some}
use dezhan.Ctl.Metrics.Exposition.{Sample, IsSample, exposition, collect, parse_metrics-exposition}

abbrev pub texts : Floats
texts = record { F = Text; zero = codes "0"; parse = λ t. some t }

parse_metrics-some_example :
    (parse_metrics texts (codes "up \ndezhan_objects{a=\"b c\"} 3\n")).0 ≢ none
parse_metrics-some_example = parse_metrics-some texts (codes "up \ndezhan_objects{a=\"b c\"} 3\n")

abbrev sample : Text → Text → Sample texts
sample n v = record { name = n; written = v; value = v }

abbrev samples : List (Sample texts)
samples = sample (codes "up") (codes "1") ∷ sample (codes "n") (codes "2") ∷ []

up-ne : codes "up" ≢ []
up-ne e = cc

n-ne : codes "n" ≢ []
n-ne e = cc

one-ne : codes "1" ≢ []
one-ne e = cc

two-ne : codes "2" ≢ []
two-ne e = cc

samples_fit : All (IsSample texts) samples
unfolding is_space has_prefix
samples_fit = (
  record {
    is_name = record {
      plain = (refl, (refl, tt));
      braceless = (refl, (refl, tt));
      named = up-ne;
      no_comment = refl;
    };
    plain = (refl, tt);
    given = one-ne;
    parsed = refl;
    short = omega arith;
  },
  (
    record {
      is_name = record {
        plain = (refl, tt);
        braceless = (refl, tt);
        named = n-ne;
        no_comment = refl;
      };
      plain = (refl, tt);
      given = two-ne;
      parsed = refl;
      short = omega arith;
    },
    tt,
  ),
)

parse_metrics-exposition_example : parse_metrics texts (exposition texts samples) ≡ (
  some (record { values = collect texts [] samples; version = []; raw = exposition texts samples }),
  false,
)
parse_metrics-exposition_example = parse_metrics-exposition texts samples samples_fit
