-- ===== src/Live/Texts.antt =====
-- What the texts of the segments say (internal/application/ai_live_scheduler.go). The regular
-- expressions and the Unicode tables are those of Go's library: they come as a parameter.
use deciscope_api.Base.{
  String, Bool, ◌&&◌, ◌||◌, List, [], ◌∷◌, any, trim, is_blank, str_eq, filter_runes, Char,
}

-- `liveSemanticTriggerFeatures`
pub record Features : Type 0 where
  pub subject_present : Bool
  pub predicate_present : Bool
  pub sentence_complete : Bool
  pub correction_cue_present : Bool
  pub decision_cue_present : Bool
  pub risk_cue_present : Bool
  pub todo_cue_present : Bool
  pub hypothesis_cue_present : Bool
  pub unresolved_cue_present : Bool
  pub completed_action_present : Bool
  pub confirmed_state_present : Bool
  pub specific_entity_present : Bool

-- `highPriority`
abbrev pub features_high_priority : Features → Bool
features_high_priority f =
    f.correction_cue_present || f.decision_cue_present || f.risk_cue_present || f.todo_cue_present
    || f.hypothesis_cue_present || f.unresolved_cue_present

-- `complete`
abbrev pub features_complete : Features → Bool
features_complete f =
    f.sentence_complete
    && ((f.subject_present && f.predicate_present)
        || (features_high_priority f || f.completed_action_present || f.confirmed_state_present)
        || (f.predicate_present && f.specific_entity_present))

-- `semanticTriggerFeatures` on a text without white space around it; whether a rune is white space,
-- punctuation or a symbol; and its lower case.
pub record Texts : Type 0 where
  pub features : String → Features
  pub is_skipped : Char → Bool
  pub lower : Char → Char

unfoldable pub is_complete : Texts → String → Bool
is_complete t text = features_complete (t.features (trim text))

unfoldable pub is_high_priority : Texts → String → Bool
is_high_priority t text = features_high_priority (t.features (trim text))

-- `liveAnalysisFillerOnly`
abbrev pub fillers : List String
fillers =
    "はい" ∷ "はいはい" ∷ "ええ" ∷ "うん" ∷ "うんうん" ∷ "ああ" ∷ "へえ" ∷ "ほう" ∷ "そう" ∷ "そうですね" ∷ "なるほど" ∷ "了解"
    ∷ "わかりました" ∷ "承知しました" ∷ "え" ∷ "えー" ∷ "ええと" ∷ "えっと" ∷ "あの" ∷ "その" ∷ "まあ" ∷ "なんか" ∷ "うーん" ∷ "ん"
    ∷ "無音" ∷ []

-- `isLowInformationFinalText`
unfoldable pub is_low_information : Texts → String → Bool
is_low_information t text =
    let normalized = filter_runes t.is_skipped t.lower (trim text) in
    is_blank normalized || any (str_eq normalized) fillers
