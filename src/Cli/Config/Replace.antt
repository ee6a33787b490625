-- ===== src/Cli/Config/Replace.antt =====
-- What `CLIConfig::setNetwork` makes of a file that has the word.
use mx_sdk_cpp.Common.{
  ◌≡◌, refl, sym, ap, ◌∙◌, true, false, List, [], ◌∷◌, ◌++◌, append_assoc, Bytes, codes, length,
  length-append, take_front, drop_front, All, some, ok, err, runtime_error,
}
use mx_sdk_cpp.Common.Texts.{
  newline, lines, unlines, find, contains, IsLine, lines-line, lines-unlines,
}
use mx_sdk_cpp.Common.Search.{find-unlines, lines-unlines_append}
use mx_sdk_cpp.Cli.Config.{
  Network, cli_config, new_line, replace_at, set_network_loop, set_network_text,
}

abbrev pub Lacks : Bytes → Type 0
Lacks l = contains cli_config l ≡ false

module _ (path : Bytes) (network : Network) where
  loop-line :
      (content line : Bytes) (before after : List Bytes)
      → All Lacks before
      → contains cli_config line ≡ true
      → set_network_loop path content network cli_config (before ++ line ∷ after)
        ≡ replace_at (find line content) content line (new_line network)
  unfolding set_network_loop
  loop-line content line [] after h has = rw has
  loop-line content line (l ∷ before) after (hl, h) has =
      rw (hl, loop-line content line before after h has)

  loop-Lacks :
      (content : Bytes) (ls : List Bytes)
      → All Lacks ls
      → set_network_loop path content network cli_config ls
        ≡ err (runtime_error (codes "Could not find CLIConfig table in " ++ path))
  unfolding set_network_loop
  loop-Lacks content [] h = refl
  loop-Lacks content (l ∷ ls) (hl, h) = rw (hl, loop-Lacks content ls h)

  replaced :
      (a line rest : Bytes) (text : Bytes)
      → replace_at (some (length a)) (a ++ (line ++ rest)) line text ≡ ok (a ++ text ++ rest)
  replaced a line rest text = rw (
    take_front a (line ++ rest),
    sym (append_assoc a line rest),
    sym (length-append a line),
    drop_front (a ++ line) rest,
  )

  -- Where a line of a text contains the name of the table and no line before it does, the text
  -- that is written has the network's line in its place and is otherwise the same.
  pub set_network_text-line :
      (before : List Bytes) (line rest : Bytes)
      → All IsLine before
      → All Lacks before
      → IsLine line
      → contains cli_config line ≡ true
      → set_network_text path network (unlines before ++ (line ++ newline ∷ rest))
        ≡ ok (unlines before ++ new_line network ++ newline ∷ rest)
  unfolding set_network_text
  set_network_text-line before line rest whole lacks line_whole has =
      let content = unlines before ++ (line ++ newline ∷ rest) in
      let cut : lines content ≡ before ++ line ∷ lines rest =
        lines-unlines_append before (line ++ newline ∷ rest) whole
        ∙ ap (λ ls. before ++ ls) (lines-line line rest line_whole) in
      ap (set_network_loop path content network cli_config) cut
      ∙ loop-line content line before (lines rest) lacks has
      ∙ ap (λ i. replace_at i content line (new_line network))
          (find-unlines cli_config line line_whole has before (newline ∷ rest) lacks)
      ∙ replaced (unlines before) line (newline ∷ rest) (new_line network)

  set_network_text-Lacks :
      (ls : List Bytes)
      → All IsLine ls
      → All Lacks ls
      → set_network_text path network (unlines ls)
        ≡ err (runtime_error (codes "Could not find CLIConfig table in " ++ path))
  unfolding set_network_text
  set_network_text-Lacks ls whole lacks =
      ap (set_network_loop path (unlines ls) network cli_config) (lines-unlines ls whole)
      ∙ loop-Lacks (unlines ls) ls lacks
