-- ===== src/Lib.antt =====
-- SkillCDN turns a git repository into a pack that agents read: an address names a repository, a ref
-- and a directory, a mount of the address lists the skills and documents that the repository's layout
-- and manifests publish, and tools and pages serve them.
--
-- This library models the rules of that service that are pure or that are small machines of state,
-- as packages/core and the server's own modules write them. Each file names the source that it
-- models in its first line, and each definition has the name of its source in snake case.
--
-- Foundations
--   Common        the names of the standard library that every module shares, tests and lists over the
--                 native numbers
--   Text          the strings of JavaScript: a text is the list of its UTF-16 code units, and the
--                 methods the code calls are functions on it; their lemmas are in its children
--   Result        packages/core/src/result.ts
--   TextSafety    packages/core/src/text-safety.ts: code points, well-formedness, refused characters
--   Percent       encodeURIComponent and decodeURIComponent, as ECMAScript defines them; Decodes is
--                 the relation between a text and what it decodes to
--
-- The names of things
--   RepoPath      packages/core/src/repo-path.ts: parseRepoPath, resolveRepoPath, joinRepoPath,
--                 isWithinRepoPath, relativeRepoPath; IsPath describes the accepted paths apart from the
--                 parser, and Under the tree that they are
--   GitRef        packages/core/src/git-ref.ts: isValidRefName, isFullCommitHash
--   Address       packages/core/src/address.ts: parseAddress is parse_address, whose rounds are
--                 decode_segment, locate and parse_repository; formatAddress is format_address, in
--                 its child Print; IsCanonical describes the addresses in their canonical spelling
--   SkillUri      packages/core/src/skill-uri.ts, over Address
--   SearchPages   packages/core/src/rest/pages.ts: the path of a search, the sections of the front page
--
-- What a repository publishes
--   RepoLayout    packages/core/src/repo-layout.ts: what a file is, which skill owns it, what withholds
--                 it, whether it is served, which overview a directory has; ServedScope is the record
--                 that the indexer fills, its sets are lists of their items and its map a list of entries
--   License       packages/core/src/license.ts: Texts and Ids recognize, Field and Split read a license
--                 field, Governing finds the license that governs
--   SkillListing  packages/core/src/skill-listing.ts: which skills are listed on their own
--   MeaningPolicy packages/core/src/search/meaning-policy.ts: which documents are embedded, in which calls;
--                 Words is what the entries say of a directory
--
-- How it is served
--   ContextPage   packages/core/src/context-page.ts: a fragment of a text within a budget of bytes
--   Lfs           packages/core/src/lfs.ts: the pointers of Git LFS; Grammar writes their lines down apart
--                 from the readers
--   SkillPages    packages/core/src/tools/pages.ts: the pages of a skill joined; results.ts for their data
--   SearchCache   apps/server/src/search/cache.ts: the state is what the closure keeps, ask is search up
--                 to its first await, answered and finished are what runs when the search behind it ends;
--                 Step is any of these events, so that every interleaving is a sequence of steps
--   Redirects     apps/server/src/auth/oauth/redirects.ts: the platform's URL parser is the parameter
--                 parse, a function of the text
--   ConsentRegions apps/server/src/http/consent-regions.ts: who is asked before analytics run
--   Reader        packages/reader/src: Order is order.ts, Queries is queries.ts over the entries of an
--                 index, which IndexEntry declares after packages/core/src/index-entry.ts
--   UsageRecorder apps/server/src/stats/usage-recorder.ts: Counters is count, Clients is client, Events
--                 is any history of calls; the platform's clock text, hashes and tables of Unicode are
--                 the record Platform
--
-- How documents are read
--   Markdown      FrontMatter is packages/core/src/front-matter.ts; Lines, Plain and Blocks are
--                 markdown-blocks.ts; Outline and Sections are search/outline.ts and search/sections.ts
--   Manifest      Values and Yaml are what parseFrontMatter reads, with the YAML package as the parameter
--                 yaml; Fields and Scalars are packages/core/src/manifest-fields.ts; Repo, over
--                 RepoManifest, Paths and Images, is repo-manifest.ts with the URLs of image-source.ts;
--                 Skill, over Included, is skill-manifest.ts
--   Browse        packages/core/src/browse-tree.ts: Catalog is what the loop of browseCatalogFiles fills,
--                 Entries makes what is listed of it
--
-- How the code is represented. A failure is a value: Result where the source returns one, none where it
-- returns undefined or throws a URIError. A regular expression is a function that reads what it
-- matches, named in a comment above it. Numbers are the native natural numbers, where the source's are
-- lengths, counts and times. toLowerCase and toUpperCase are modelled as far as their result can be
-- ASCII, which is all that the code looks for in it.
--
-- Loops. A loop over the items of a list is a recursion on the list. The walks to the root of a
-- repository, nearest_from, excluded_from, decide_from and language_from, take a fuel of one more
-- than the length of the path, and each round shortens the path. split_parts takes one more than the
-- length of the text and reads a unit in each round, digits_onto takes one more than the number and
-- divides it by ten in each, and evict takes the size of the map and lets go of one entry in each.
--
-- What is not modelled. The database and its statements, the git host, the models of the search and
-- the YAML reader are services or packages that are not here; the pages of the web application, the
-- command line, the wording of results and the roles of the server are I/O and glue. The readers of
-- the links of Markdown, the jobs, mounts and sessions are left for later modules.
pub mod Common
pub mod Text
pub mod Result
pub mod TextSafety
pub mod RepoPath
pub mod GitRef
pub mod Percent
pub mod Address
pub mod RepoLayout
pub mod MeaningPolicy
pub mod ContextPage
pub mod SkillUri
pub mod SkillListing
pub mod SkillPages
pub mod SearchCache
pub mod Redirects
pub mod License
pub mod SearchPages
pub mod ConsentRegions
pub mod Lfs
pub mod IndexEntry
pub mod Reader
pub mod UsageRecorder
pub mod Markdown
pub mod Manifest
pub mod Browse
