-- ===== src/Lib.antt =====
-- A model of the TypeScript programs of SZNouns, with proofs about it.
--
-- Five programs are modelled in part: the image library, the index, the web application, the library of
-- assets and the bot.
--
-- The image library (packages/nouns-sdk/src/image). `encodeImages` turns pixels into a run-length
-- encoding, which the contracts store; `buildSVG` reads that encoding and draws it. The pixels come from
-- a PNG reader, as a function of x and y (`Pixels`). Sdk.Image is the class `Image` with its rows and
-- bounds (image.ts: `appendPixelToRect`, `updateImageBounds`, `deleteEmptyRows`), Sdk.Encode is `encode`
-- and `toRLE`, Sdk.Palette is the map of colours that images share, Sdk.Hex the text of numbers
-- (utils.ts), Sdk.Svg is `decodeImage`, `decodeGlasses` and `buildSVG` (svg-builder.ts), with
-- Sdk.Svg.Print for the text of the elements. Sdk.Glasses is the other format, of glasses
-- (`toGlassesRLE`), with the coordinates of constants.ts in Sdk.Glasses.Coords, and Sdk.Collection the
-- collection of images (png-collection-encoder.ts). Under Sdk.Roundtrip the two sides meet. A text is the
-- list of its code units. A JavaScript map is a list of entries in the order of their insertion.
--
-- The index (packages/nouns-subgraph/src). The Graph runs a handler for every event of the contracts; a
-- handler loads and saves entities. Subgraph.Graph is what the handlers use of The Graph, as a parameter:
-- the tables of entities, with the law that a load gives what was saved last, and the texts of numbers
-- and addresses. Subgraph.Entities has the entities of schema.graphql, Subgraph.Helpers utils/helpers.ts
-- and utils/constants.ts, Subgraph.Auctions nouns-auction-house.ts, Subgraph.Tokens nouns-erc-721.ts and
-- Subgraph.Governance nouns-dao.ts. A handler is a function from the store to the store; one that may
-- read a field that was never set gives an Option, where `none` is the trap that stops the index. The
-- handlers hold copies of entities, as in the source: what is saved under an id last is what stays.
--
-- The web application (packages/nouns-webapp/src). Its pages share a Redux state; an action is a function
-- from a slice's state to the next. Webapp.Auction is state/slices/auction.ts, Webapp.Display
-- state/slices/onDisplayAuction.ts, Webapp.Logs state/slices/logs.ts with utils/logParsing.ts, and
-- Webapp.Founders utils/nounderNoun.ts and utils/nounsDAONoun.ts. Webapp.Logs.Updater is
-- state/updaters/logs.ts, which fetches the logs that the slice holds, and Webapp.Logs.Listening
-- hooks/useLogs.ts, which gives them to a page. Webapp.Shown is wrappers/onDisplayAuction.ts with
-- state/slices/pastAuctions.ts: what pages make of the slices. Webapp.Proposals and Webapp.Titles are the
-- states and titles of wrappers/nounsDao.ts, the states beside `state` of
-- packages/nouns-contracts/contracts/governance/NounsDAOLogicV1.sol, the titles with the description that
-- pages/CreateProposal/index.tsx proposes. Webapp.Bidding is components/Bid/index.tsx, beside `createBid`
-- of packages/nouns-contracts/contracts/NounsAuctionHouse.sol; the texts of amounts are the parameter
-- Webapp.Bidding.EtherTexts. Webapp.Functions is functions/theGraph.ts and
-- functions/v0-proposal-votes/index.ts, Webapp.Shuffle utils/pseudoRandomPredictableShuffle.ts; its
-- floating-point operations are the parameter Webapp.Shuffle.Floats.
--
-- The library of assets (packages/nouns-assets/src/utils.ts), in Assets: the parts of a noun, and the seed
-- that a hash gives, beside `generateSeed` of packages/nouns-contracts/contracts/NounsSeeder.sol. The big
-- numbers of ethers are a parameter, Assets.Numbers.BigNumbers; the hash itself is an argument.
--
-- The bot (packages/nouns-bots/src). Two loops look at the index and tell handlers what is new: Bots.Ticks
-- is the auction loop of index.ts, Bots.Governance the other one, Bots.Proposals utils/proposals.ts.
-- Bots.Cache is cache.ts over Redis, which with the JSON text of a proposal is the parameter Bots.Redis.
-- Bots.Handlers is handlers/twitter.ts and handlers/discord.ts, with the texts of utils.ts in Bots.Messages;
-- Twitter, Discord, ENS and the image of a noun are the parameter Bots.Messages.Services. The loops see a
-- handler as Bots.Ticks.Handler, which keeps the keys that are the loops' own. An action gives the next
-- world and whether it resolved; a rejected call ends what comes after it. Ticks do not overlap.
--
-- The API (packages/nouns-api/src), in Api: utils.ts with its cache, and the route of api.ts. Redis, the
-- contract, the validator, the conversion of images and their storage are the parameter Api.Services.
--
-- Loops over pixels, rows and pieces of text are structural recursion on the number of columns or rows
-- left, or on the list. The loops that write the digits of n, in base 16 and in base 10, are on fuel n
-- or n + 1, and n has no more digits. The loop over blocks is on fuel of the last block and 2, which is
-- enough since each turn goes on by a million blocks. Amounts of the index are integers (Prelude.Int over
-- native numbers); the one `i32` of an entity is kept as its bit pattern and counts modulo 2 ^ 32.
--
-- Not modelled: the PNG reader and the writing of files, the signs and white space that `parseInt` skips,
-- the queries of the bot, the rest of the web application, and the Solidity contracts, whose events are
-- the input of the index.
pub mod Prelude
pub mod Sdk
pub mod Subgraph
pub mod Webapp
pub mod Assets
pub mod Bots
pub mod Api
