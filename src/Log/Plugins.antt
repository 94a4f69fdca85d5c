-- ===== src/Log/Plugins.antt =====
-- The log macros of the plugins: fluent-bit/flb_input_plugin.h, flb_output_plugin.h,
-- flb_filter_plugin.h, flb_custom_plugin.h and flb_processor_plugin.h. The five macros of a header
-- differ in the level, which is an argument here, and in that a trace names a place in the code too,
-- except for processors; the place and the text that follows the names are left out.
use my_repo.Base.{
  ℕ, ◌≤◌, ◌<◌, ◌≡◌, ◌≢◌, ◌⊎◌, refl, ap, inl, inr, Option, none, some, List, arith, ◌==◌,
  if◌then◌else◌, Bool-cases, leb,
}
use my_repo.Log.{log_check_level, log_suppress_check}

pub data Kind : Type 0 where
  an_input an_output a_filter a_custom a_processor : Kind

-- What the macros read of an instance: its level and interval, its plugin's name, and the name that
-- `flb_*_name` answers for it.
pub record Instance : Type 0 where
  pub log_level : ℕ
  pub log_suppress_interval : ℕ
  pub plugin_name : List ℕ
  pub name : List ℕ

-- A call of `flb_log_print`: the level, and what the message begins with.
pub record Printed : Type 0 where
  pub level : ℕ
  pub kind : Kind
  pub plugin_name : List ℕ
  pub instance_name : List ℕ

abbrev pub prefixed : Kind → Instance → ℕ → Printed
prefixed kind ctx level = record {
  level = level;
  kind = kind;
  plugin_name = ctx.plugin_name;
  instance_name = ctx.name;
}

-- What is printed, and what `flb_log_cache_check_suppress` was asked, by a macro that asks it.
abbrev pub suppressible :
    Kind
    → (vsnprintf : ℕ → ℕ × List ℕ) (worker : Option ℕ) (check_suppress : List ℕ → ℕ → ℕ) → Instance
    → (level : ℕ) → Option Printed × Option (List ℕ × ℕ)
suppressible kind vsnprintf worker check_suppress ctx level =
    let (suppress, asked) =
      log_suppress_check ctx.log_suppress_interval vsnprintf worker check_suppress in
    if log_check_level ctx.log_level level
    then (if suppress == 0 then some (prefixed kind ctx level) else none, asked)
    else (none, none)

module _ (vsnprintf : ℕ → ℕ × List ℕ) (worker : Option ℕ) (check_suppress : List ℕ → ℕ → ℕ) where
  unfoldable pub input_plg : Instance → (level : ℕ) → Option Printed × Option (List ℕ × ℕ)
  input_plg = suppressible an_input vsnprintf worker check_suppress

  unfoldable pub output_plg : Instance → (level : ℕ) → Option Printed × Option (List ℕ × ℕ)
  output_plg = suppressible an_output vsnprintf worker check_suppress

  unfoldable pub filter_plg : Instance → (level : ℕ) → Option Printed × Option (List ℕ × ℕ)
  filter_plg = suppressible a_filter vsnprintf worker check_suppress

unfoldable pub custom_plg : Instance → (level : ℕ) → Option Printed
custom_plg ctx level =
    if log_check_level ctx.log_level level then some (prefixed a_custom ctx level) else none

unfoldable pub processor_plg : Instance → (level : ℕ) → Option Printed
processor_plg ctx level =
    if log_check_level ctx.log_level level then some (prefixed a_processor ctx level) else none

module _ (vsnprintf : ℕ → ℕ × List ℕ) (worker : Option ℕ) (check_suppress : List ℕ → ℕ → ℕ) where
  -- A macro prints nothing and asks nothing if the level does not pass; otherwise the cache is asked
  -- as the suppression does, and the message is printed exactly if the answer is 0.
  abbrev pub Logs :
      Kind → (plg : Instance → ℕ → Option Printed × Option (List ℕ × ℕ)) → Instance → ℕ → Type 0
  Logs kind plg ctx level =
      ((ctx.log_level < level) × (plg ctx level ≡ (none, none)))
      ⊎ ((level ≤ ctx.log_level)
          × ((asked : Option (List ℕ × ℕ)) × (((log_suppress_check ctx.log_suppress_interval
                      vsnprintf worker check_suppress
                    ≡ (0, asked))
                  × (plg ctx level ≡ (some (prefixed kind ctx level), asked)))
                ⊎ ((answer : ℕ) × (answer ≢ 0)
                    × (log_suppress_check ctx.log_suppress_interval vsnprintf worker check_suppress
                        ≡ (answer, asked))
                    × (plg ctx level ≡ (none, asked))))))

  suppressible-Logs :
      (kind : Kind) (ctx : Instance) (level : ℕ)
      → Logs kind (suppressible kind vsnprintf worker check_suppress) ctx level
  unfolding log_check_level
  suppressible-Logs kind ctx level =
      let r = log_suppress_check ctx.log_suppress_interval vsnprintf worker check_suppress in
      elim (Bool-cases (leb level ctx.log_level)) [
        | inl passes ↦ inr (
          ground arith,
          (
            r.1,
            elim (Bool-cases (r.0 == 0)) [
              | inl zero_answer ↦
                  inl (ap (λ a. (a, r.1)) (ground arith), rw (passes, zero_answer) refl)
              | inr answer ↦ inr (r.0, ground arith, refl, rw (passes, answer) refl)
            ],
          ),
        )
        | inr fails ↦ inl (ground arith, rw fails refl)
      ]

  -- The macros of the inputs, the outputs and the filters: if the level of the message does not pass
  -- for the instance, they print nothing and ask nothing. Otherwise the cache is asked exactly what
  -- `flb_log_suppress_check` asks for the interval of the instance, and the message is printed, with
  -- the kind of the plugin, exactly if the answer is 0.
  pub plg_lem :
      (ctx : Instance) (level : ℕ)
      → Logs an_input (input_plg vsnprintf worker check_suppress) ctx level
        × Logs an_output (output_plg vsnprintf worker check_suppress) ctx level
        × Logs a_filter (filter_plg vsnprintf worker check_suppress) ctx level
  unfolding input_plg output_plg filter_plg
  plg_lem ctx level = (
    suppressible-Logs an_input ctx level,
    suppressible-Logs an_output ctx level,
    suppressible-Logs a_filter ctx level,
  )
