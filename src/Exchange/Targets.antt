-- ===== src/Exchange/Targets.antt =====
-- `formatWsTarget`: the path of the web socket.
use mathlib.Core.List.{append-nil}
use trading_chart_viewer.Common.{
  ℕ, suc, ◌≡◌, ap, ◌&&◌, Option, none, some, [], ◌∷◌, ◌++◌, back, ◌==◌, if◌then◌else◌,
}
use trading_chart_viewer.Domain.Label.{Text, codes}
use trading_chart_viewer.Exchange.Rest.{contains}

-- What stands for the placeholder of a number: the symbol, then the label, then itself.
abbrev placeholder : ℕ → Text → Text → Text
placeholder index symbol label =
    if index == 0 then symbol else if index == 1 then label else codes "%s"

-- The loop over the template, behind a character that may begin a placeholder.
unfoldable pub fill_placeholders : ℕ → Text → Text → Text → Text
fill_placeholders index symbol label [] = []
fill_placeholders index symbol label (c ∷ []) = c ∷ []
fill_placeholders index symbol label (c ∷ d ∷ r) =
    let filled = fill_placeholders (suc index) symbol label r in
    let copied = fill_placeholders index symbol label (d ∷ r) in
    if (c == b'%') && (d == b's') then placeholder index symbol label ++ filled else c ∷ copied

abbrev rooted : Text → Text
rooted [] = []
rooted (c ∷ r) = if c == b'/' then c ∷ r else b'/' ∷ c ∷ r

abbrev with_slash : Text → Option ℕ → Text
with_slash base none = base
with_slash base (some c) = if c == b'/' then base else base ++ b'/' ∷ []

abbrev base_of : Text → Text
base_of [] = codes "/ws"
base_of (c ∷ r) = c ∷ r

unfoldable pub format_ws_target : Text → Text → Text → Text
unfolding contains fill_placeholders
format_ws_target template symbol label =
    if contains (codes "%s") template
    then rooted (fill_placeholders 0 symbol label template)
    else with_slash (base_of template) (back (base_of template))
      ++ symbol
      ++ codes "@kline_"
      ++ label

-- With the default template the target is that of the stream of the symbol's candles, whatever the
-- symbol and the label are.
pub format_ws_target-default :
    (symbol label : Text)
    → format_ws_target (codes "/ws/%s@kline_%s") symbol label
      ≡ codes "/ws/" ++ (symbol ++ (codes "@kline_" ++ label))
unfolding format_ws_target contains fill_placeholders
format_ws_target-default symbol label =
    ap (λ xs. codes "/ws/" ++ (symbol ++ (codes "@kline_" ++ xs))) (append-nil label)
