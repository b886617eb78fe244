-- ===== src/Proxy/Dump.antt =====
-- python_proxi/proxi.py, `news`: the body of its reply. A title is any value that the news service
-- sent and that is true to Python, so `json.dumps` has whole values to write. How it writes a number
-- is an argument.
use ikt104_eksamen_oppgave.Base.{true, false, List, [], ◌∷◌, ◌++◌, Bytes, codes, decimal, length}
use ikt104_eksamen_oppgave.Proxy.{escaped, separated}
use ikt104_eksamen_oppgave.Proxy.Titles.{
  Json, null, boolean, number, string, array, dictionary, Items, no_more, item, Entries, closed,
  entry,
}

module _ {Number : Type 0} (number_text : Number → Bytes) where
  -- `, ` in front of another item or entry.
  abbrev item_separated : Items Number → Bytes → Bytes
  item_separated no_more rest = rest
  item_separated (item v items) rest = b',' ∷ b' ' ∷ rest

  abbrev entry_separated : Entries Number → Bytes → Bytes
  entry_separated closed rest = rest
  entry_separated (entry k v entries) rest = b',' ∷ b' ' ∷ rest

  -- What `json.dumps` writes for a value, in front of what follows it.
  unfoldable mutual
    pub dump_json : Json Number → Bytes → Bytes
    dump_json null rest = codes "null" ++ rest
    dump_json (boolean true) rest = codes "true" ++ rest
    dump_json (boolean false) rest = codes "false" ++ rest
    dump_json (number n) rest = number_text n ++ rest
    dump_json (string text) rest = b'"' ∷ escaped text (b'"' ∷ rest)
    dump_json (array items) rest = b'[' ∷ dump_items items rest
    dump_json (dictionary entries) rest = b'{' ∷ dump_entries entries rest

    pub dump_items : Items Number → Bytes → Bytes
    dump_items no_more rest = b']' ∷ rest
    dump_items (item v items) rest = dump_json v (item_separated items (dump_items items rest))

    pub dump_entries : Entries Number → Bytes → Bytes
    dump_entries closed rest = b'}' ∷ rest
    dump_entries (entry key v entries) rest =
        b'"'
        ∷ escaped key
            (b'"' ∷ b':' ∷ b' ' ∷ dump_json v (entry_separated entries (dump_entries entries rest)))

  -- The items of the list of titles, and its closing bracket.
  unfoldable pub dump_titles : List (Json Number) → Bytes → Bytes
  dump_titles [] rest = b']' ∷ rest
  dump_titles (t ∷ ts) rest = dump_json t (separated ts (dump_titles ts rest))

  unfoldable pub news_body : List (Json Number) → Bytes
  news_body titles =
      codes "{\"count\": "
      ++ (decimal (length titles) ++ (codes ", \"titles\": [" ++ dump_titles titles (b'}' ∷ [])))
