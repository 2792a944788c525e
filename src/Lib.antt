-- ===== src/Lib.antt =====
-- Verification library of the web application's core: the playlist parser, the programme guide and
-- the digest of both, the cache of channels, the addresses of their archives, their health record
-- and their probe, the guard of the proxying routes, and the accounts: the limiter of their routes,
-- sessions, the sign-in, the access state, the payment events and what administrators change.
--
-- The application reads a playlist (apps/web/src/lib/m3u.ts), shows its channels, keeps for each
-- of them a record of failures in the browser's storage (apps/web/src/lib/channelHealth.ts), and
-- fetches streams, playlists and guides through proxying routes that must not reach private
-- addresses (apps/web/src/lib/ssrfGuard.ts). The identities that the parser gives are the keys of
-- the health records; the sweep of the health records asks a route whose requests go through the
-- guard. A guide (apps/web/src/lib/epg.ts) is matched to the channels by their ids and names, in
-- the browser (apps/web/src/lib/epgCache.ts) or on the server, whose digest
-- (apps/web/src/lib/digest.ts) runs both parsers and cuts the guide to a window around now.
--
-- Accounts, sessions and counters are keys of one store (apps/web/src/lib/cfEnv.ts): the sign-in
-- counts its caller, reads and aligns the account, and makes a session, and the guard of the
-- routes reads both. An administrator, who holds a signed token, changes the access of an account.
-- The payment events change a customer at the payment service.
--
-- Prelude, Text, Dictionary  shared: lists and Boolean tests, JavaScript strings as lists of
--            UTF-16 code units, maps with text keys
-- Runtime    the record Js of what the code relies on in the JavaScript runtime and that is not
--            modelled digit by digit: Number(text), String(number), the order of numbers and
--            Unicode lower case, all arguments of the definitions. IsOrdered and the IsExact of
--            Ssrf state the laws that some theorems use; the tests instantiate both with the
--            natural numbers
-- Double     total * 0.7 in double arithmetic, on natural numbers
-- M3u        apps/web/src/lib/m3u.ts: ExtInf is splitExtInf, ATTR and parseExtInf, Attributes is
--            parseCatchupCorrection, Playlist is the line loop of parseM3U, its sort and its
--            statistics; the other files prove
-- Epg        apps/web/src/lib/epg.ts: Stamp is parseXmltvDate, Entities is decodeEntities and
--            unwrapCdata, Attributes is ATTR_RE, Elements the loops over elements, Scan is
--            readProgramme, iterProgrammes and indexProgrammes, Names is normaliseChannelName,
--            stripQualityTags, iterChannels and indexChannelNames; Now is programmesFor,
--            pickNowNext and hydrateChannels of apps/web/src/lib/epgCache.ts; the other files
--            prove. A time is counted in milliseconds from the day before the year 1, so that
--            it is a natural number: a JavaScript time is this number less `epoch`
-- Digest     apps/web/src/lib/digest.ts: pickProgrammes and buildDigest; its files prove
-- ChannelCache  apps/web/src/lib/channelCache.ts: the configured address, the memory of a tab and
--            the storage of its session, getCachedChannels, fetchAndParse, invalidateCache and the
--            start of loadChannelsResult; Provenance proves. What JSON makes of a number on its
--            way into the storage and back is the argument json_num, since it has no infinite ones
-- Catchup    apps/web/src/lib/catchup.ts: Template is expandTemplate, Panels is parseXtreamLiveUrl,
--            parseFlussonicLiveUrl and the candidates built from them, Build is
--            collectAllCandidates and buildCatchupUrl; Distinct and Places prove. What it takes from the
--            runtime is the parameter Platform
-- Health     apps/web/src/lib/channelHealth.ts: the file itself is the storage with its schema and
--            expiry (read, write), Reports is reportOk, reportFail, hiddenIds, restore and
--            restoreAll, Sweep is probeBatch, sweepNextBatch and probeHidden; the other files
--            prove. The storage is the record World; the clock and each reply of the probe
--            endpoint are arguments, one Round for each round of a sweep
-- Ssrf       apps/web/src/lib/ssrfGuard.ts: Ipv4 is canonicaliseIPv4 and isPrivateIPv4, Ipv6 is
--            isPrivateIPv6 with its regular expressions read on the groups between colons, Guard
--            is validateUpstreamUrl, Fetch is dohResolvesToPrivate and safeFetch; the other files
--            prove. `new URL` and the resolution of a relative URL are arguments, and a Hop is
--            what one turn of the loop reads from the clock, the resolver and the server. A Net
--            holds the map of verdicts and the list of what was sent
-- Probe      apps/web/src/app/api/stream/probe/route.ts: the file itself is isAllowedCaller,
--            safeHeaderValue and the items of a request, Head is fetchHead, looksLikeManifest and
--            pickMediaUri, One is probeOne as a process that sends requests, Pool is POST with its
--            workers: a step is one worker going on until its next request, and Reaches is what
--            steps of the workers in any order lead to; the other files prove. What safeFetch
--            gives and whether a deadline has passed are arguments of a step
-- Effect     handlers that change a store, may throw, and may end early with an answer
-- Kv         the interface KVNamespace of apps/web/src/lib/cfEnv.ts: a record whose operations are
--            parameters, with the documented behaviour of the service as the laws IsKeeping and
--            the absence of failures as IsUp; Dict is a dictionary with times of expiry that
--            fulfils both, and Frame says what a call leaves as it was. The service documents
--            IsKeeping for one location only: at another one a write is seen up to a minute later
-- RateLimit  apps/web/src/lib/rateLimit.ts: the limiter of the account routes over the store. A
--            request reads and writes its counter in one step, so that requests of one key come
--            one after another; those that overlap in the program are outside the model
-- Session    apps/web/src/lib/auth/serverSession.ts (Cookie has its cookie) and the routes under
--            apps/web/src/app/api/auth on sessions: sessions, sessions/[sid], logout. The random
--            id, the clock and JSON are arguments; the other files prove
-- Access     apps/web/src/lib/auth/users.ts and apps/web/src/lib/accessGuard.ts: the account, its
--            access state, and requireActiveAccess with the lookups in the store as arguments
-- Users      the same records in the store, and the handle before the address is verified,
--            apps/web/src/lib/auth/preverify.ts
-- Firebase   apps/web/src/lib/firebaseAuth.ts: what its `call` makes of a reply of the service
-- Password   apps/web/src/lib/auth/password.ts: verifyPassword, with the key derivation and base64
--            as arguments; Compare proves
-- Login      apps/web/src/app/api/auth/login/route.ts. The record Env holds the store, the
--            service, the key derivation, and the random texts; the clock is read once for a
--            request. The other files prove
-- Billing    apps/web/src/app/api/billing/webhook/route.ts: the events of the payment service,
--            which is the parameter Stripe; a Worker holds the map SEEN and the customers
-- AdminSession  apps/web/src/lib/adminSession.ts: the token of an administrator; base64, UTF-8 and
--            the signature are parameters with laws
-- AdminAccess  apps/web/src/app/api/admin/users/[email]/access/route.ts behind
--            apps/web/src/lib/adminGuard.ts: what an administrator does to an account's access
--
-- No definition needs fuel that could run out: the parser and the sweep are recursions on their
-- lists, and the redirect loop and the list of sessions run over the turns that their bounds
-- allow. Printing a number takes one more than the number as its bound, which is more than its
-- digits, and reading a printed number back is shown to give it. The scan of a guide and the test
-- for quality tags run on the length of the text; a round of the scan goes on with a shorter text,
-- and the scan is shown to fulfil the equation of the loop without a bound.
--
-- Date.UTC and Array.prototype.sort, which is stable, are written out by their documented behaviour.
-- The clock is read once for a call, also where the code reads it again after an await.
--
-- Not modelled: the network calls behind the probes, the listeners of the health records, console
-- output, React components, the remaining routes of the application, the cache around the fetch of
-- a guide, the loads of channels in flight, and the services written in Go.
mod Prelude
pub mod Text
pub mod Runtime
pub mod Dictionary
pub mod Effect
pub mod Kv
pub mod Double
pub mod M3u
pub mod Epg
pub mod Digest
pub mod ChannelCache
pub mod Catchup
pub mod Health
pub mod RateLimit
pub mod Session
pub mod Access
pub mod Ssrf
pub mod Probe
pub mod Password
pub mod Users
pub mod Firebase
pub mod Login
pub mod Billing
pub mod AdminAccess
pub mod AdminSession
