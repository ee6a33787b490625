-- ===== src/Cli/ArgHandler/Requested.antt =====
-- What the command line asked for, where a request is made of it.
use mx_sdk_cpp.Common.{
  ◌≡◌, refl, sym, Bool, true, false, ◌&&◌, List, [], ◌∷◌, Bytes, codes, length, is_empty,
  bytes_eq_iff, ◌==◌, ==_iff, All, Result, ok, >>=-eq-ok, guard-ok, subst, not, if◌then◌else◌,
}
use mx_sdk_cpp.Libraries.OptionParser.{OptionsLib, Options, ParseResult}
use mx_sdk_cpp.Cli.Options
use mx_sdk_cpp.Cli.ArgHandler.{
  RequestType, invalid, help, create_signed_transaction, issue_esdt, transfer_esdt,
  set_network_config, ArgParsedResult, parse_cmd, parse_sub_cmd, check_empty_values, can_parse,
  request, is_help, asks_help, with_help, parse_request, parse, is_call,
}

abbrev IsFilled : Bytes × Bytes → Type 0
IsFilled argument = is_empty argument.1 ≡ false

both : (a b : Bool) → (a && b) ≡ true → (a ≡ true) × (b ≡ true)
both true true h = (refl, refl)
both true false h = absurd cc
both false b h = absurd cc

check_empty_values-ok :
    (arguments : List (Bytes × Bytes))
    → check_empty_values arguments ≡ ok tt
    → All IsFilled arguments
unfolding check_empty_values
check_empty_values-ok [] h = tt
check_empty_values-ok ((key, value) ∷ arguments) h =
    let (full, rest) = guard-ok (not (is_empty value)) _ (check_empty_values arguments) h in
    (is_full (is_empty value) full, check_empty_values-ok arguments rest)
  where
    is_full : (b : Bool) → not b ≡ true → b ≡ false
    is_full true h = absurd cc
    is_full false h = refl

module _ (lib : OptionsLib) (argv : List Bytes) where
  -- The result is that of the request's own options: two names and no empty value.
  pub record IsRequest (p : ArgParsedResult) (cmd sub_cmd : Bytes) (options : Options)
      : Type 0 where
    pub is_cmd : parse_cmd argv ≡ cmd
    pub is_sub_cmd : parse_sub_cmd argv ≡ sub_cmd
    pub parsed : lib.parse options argv ≡ ok p.result
    pub names : length p.result.unmatched ≡ 2
    pub filled : All IsFilled p.result.arguments

  can_parse-ok :
      (options : Options) (result : ParseResult)
      → can_parse lib argv options ≡ ok result
      → (lib.parse options argv ≡ ok result)
        × (length result.unmatched ≡ 2)
        × All IsFilled result.arguments
  unfolding can_parse
  can_parse-ok options result h =
      let (found, parsed, rest) = >>=-eq-ok (lib.parse options argv) _ h in
      let (two, rest') = guard-ok (length found.unmatched == 2) _ _ rest in
      let (done, filled, same) = >>=-eq-ok (check_empty_values found.arguments) _ rest' in
      let e : found ≡ result = cc in
      subst
        (λ r. (lib.parse options argv ≡ ok r) × (length r.unmatched ≡ 2) × All IsFilled r.arguments)
        e (parsed, (==_iff _ _).0 two, check_empty_values-ok found.arguments filled)

  request-IsRequest :
      (cmd sub_cmd : Bytes) (options : Options) (t : RequestType) (p : ArgParsedResult)
      → is_call lib argv cmd sub_cmd ≡ true
      → request lib argv options t ≡ ok p
      → (p.request_type ≡ t) × IsRequest p cmd sub_cmd options
  unfolding request
  request-IsRequest cmd sub_cmd options t p call h =
      let (result, can, same) = >>=-eq-ok (can_parse lib argv options) _ h in
      let (parsed, two, filled) = can_parse-ok options result can in
      let made : ArgParsedResult = record { request_type = t; help_text = []; result = result } in
      let e : made ≡ p = cc in
      let (c, s) = both _ _ call in
      subst (λ q. (q.request_type ≡ t) × IsRequest q cmd sub_cmd options) e
        (
          refl,
          record {
            is_cmd = (bytes_eq_iff (parse_cmd argv) cmd).0 c;
            is_sub_cmd = (bytes_eq_iff (parse_sub_cmd argv) sub_cmd).0 s;
            parsed = parsed;
            names = two;
            filled = filled;
          },
        )

  -- A request other than help has the options of its own call.
  abbrev pub Asked : ArgParsedResult → RequestType → Type 0
  Asked p create_signed_transaction =
      IsRequest p (codes "transaction") (codes "new") Options.transaction
  Asked p issue_esdt = IsRequest p (codes "esdt") (codes "issue") Options.issue
  Asked p transfer_esdt = IsRequest p (codes "esdt") (codes "transfer") Options.transfer
  Asked p set_network_config = IsRequest p (codes "network") (codes "set") Options.network
  Asked p _ = Unit

  asked :
      (cmd sub_cmd : Bytes) (options : Options) (t : RequestType) (p : ArgParsedResult)
      → ((q : ArgParsedResult) → IsRequest q cmd sub_cmd options → Asked q t)
      → is_call lib argv cmd sub_cmd ≡ true
      → request lib argv options t ≡ ok p
      → Asked p p.request_type
  asked cmd sub_cmd options t p means call h =
      let (is, requested) = request-IsRequest cmd sub_cmd options t p call h in
      subst (λ u. Asked p u) (sym is) (means p requested)

  chosen :
      (b : Bool) (x y : Result ArgParsedResult) (p : ArgParsedResult)
      → (b ≡ true → x ≡ ok p → Asked p p.request_type)
      → (y ≡ ok p → Asked p p.request_type)
      → (if b then x else y) ≡ ok p
      → Asked p p.request_type
  chosen true x y p taken otherwise h = taken refl h
  chosen false x y p taken otherwise h = otherwise h

  of_no_call :
      (t : RequestType) (text : Bytes) (p : ArgParsedResult)
      → ((q : ArgParsedResult) → Asked q t)
      → ok (record { request_type = t; help_text = text; result = lib.empty }) ≡ ok p
      → Asked p p.request_type
  of_no_call t text p means h =
      let made : ArgParsedResult = record {
        request_type = t;
        help_text = text;
        result = lib.empty;
      } in
      let e : made ≡ p = cc in subst (λ q. Asked q q.request_type) e (means made)

  parse_request-Asked :
      (p : ArgParsedResult) → parse_request lib argv ≡ ok p → Asked p p.request_type
  unfolding parse_request
  parse_request-Asked p =
      chosen (is_call lib argv (codes "transaction") (codes "new")) _ _ p
        (asked _ _ _ create_signed_transaction p (λ q r. r))
        (chosen (is_call lib argv (codes "esdt") (codes "issue")) _ _ p
          (asked _ _ _ issue_esdt p (λ q r. r))
          (chosen (is_call lib argv (codes "esdt") (codes "transfer")) _ _ p
            (asked _ _ _ transfer_esdt p (λ q r. r))
            (chosen (is_call lib argv (codes "network") (codes "set")) _ _ p
              (asked _ _ _ set_network_config p (λ q r. r)) (of_no_call invalid [] p (λ q. tt)))))

  of_help :
      (b : Bool) (text : Bytes) (other : Result ArgParsedResult) (p : ArgParsedResult)
      → (other ≡ ok p → Asked p p.request_type)
      → (if b then with_help lib text else other) ≡ ok p
      → Asked p p.request_type
  of_help b text other p otherwise =
      chosen b (with_help lib text) other p (λ taken. of_no_call help text p (λ q. tt)) otherwise

  -- Where `parse` returns a request other than help and an invalid one, the command line names the
  -- request's command and subcommand, the result is that of its own options, with two arguments
  -- beside them, and no option has an empty value.
  pub parse-Asked : (p : ArgParsedResult) → parse lib argv ≡ ok p → Asked p p.request_type
  unfolding parse
  parse-Asked p = of_help (is_help (parse_cmd argv) && length argv == 2) (Options.help lib) _ p (
      of_help (asks_help lib argv (codes "transaction")) (lib.help Options.transaction) _ p (
        of_help (asks_help lib argv (codes "esdt")) (Options.esdt_help lib) _ p (
          of_help (asks_help lib argv (codes "network")) (lib.help Options.network) _ p
            (parse_request-Asked p))))
