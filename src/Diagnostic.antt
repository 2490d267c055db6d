-- ===== src/Diagnostic.antt =====
-- Diagnostics of the plugin framework: an attribute (empty for none) and a summary. The details, which
-- only a person reads, are left out.
use terraform_provider_proxm.Prelude.{Bool, true, false, List, [], ◌∷◌}
use terraform_provider_proxm.Text.{Text}

pub record Diagnostic : Type 0 where
  pub attribute : Text
  pub summary : Text

abbrev pub attribute_error : Text → Text → List Diagnostic
attribute_error attribute summary = record { attribute = attribute; summary = summary } ∷ []

abbrev pub report : Bool → List Diagnostic → List Diagnostic
report true diagnostics = diagnostics
report false diagnostics = []
